-- ===== src/Auth/ApiKeys/Lifecycle.antt =====
-- A key's life in internal/services/auth/apikey.go: generated, accepted, disabled, deleted.
use Prim.Native.String
use go_backend_core.Prelude.{ℕ, ◌≡◌, refl, ◌≢◌, true, false, Option, none, some, String, arith}
use go_backend_core.Prelude.Equality.{◌==◌, string_eq, nat_eq, equals_refl}
use go_backend_core.Prelude.Result.{ok, err}
use go_backend_core.Prelude.Search.{
  find_first, modify_first, find_first_sound, find_first_unique, find_first-append, find_first_gone,
  find_first-modify_first_ne, In-modify_first, Distinct-modify_first,
}
use go_backend_core.Auth.ApiKeys.{
  ApiKey, ApiKeyStore, Updates, GeneratedKey, unknown_key, disabled, is_present, has_hash, has_id,
  create, find_by_hash, update, delete, updated, deleted, touched, is_expired, generate_key,
  validate_key, new_key,
}
use go_backend_core.Auth.ApiKeys.Unique.{IsValid}

made_accepted :
    (hash_key : String → String) (raw : String) (key : ApiKey) (now later : ℕ) (s : ApiKeyStore)
    → find_first (has_hash (hash_key raw)) s.keys ≡ none
    → key.key_hash ≡ hash_key raw
    → key.status ≡ "active"
    → key.deleted_at ≡ none
    → is_expired key.expires_at later ≡ false
    → (validate_key hash_key raw later (create key now s).0).1
      ≡ ok (record (create key now s).1 { last_used_at = some later })
unfolding validate_key create find_by_hash find_first
made_accepted hash_key raw key now later s fresh hashed live present lasts = rw (
  find_first-append (has_hash (hash_key raw)) s.keys _ fresh,
  hashed,
  present,
  equals_refl (hash_key raw),
  live,
  lasts,
)

-- A raw key that was just generated is accepted until it expires, as the key that was made, with
-- the time of its use, if no present key of the store had its hash.
pub generate_key-validate_key :
    (hash_key : String → String) (name : String) (user : ℕ) (scopes : String)
    (expires_at : Option ℕ) (random : String) (now later : ℕ) (s : ApiKeyStore) (g : GeneratedKey)
    → find_first (has_hash (hash_key (String.◌++◌ "gbk_" random))) s.keys ≡ none
    → (generate_key hash_key name user scopes expires_at (some random) now s).1 ≡ ok g
    → is_expired expires_at later ≡ false
    → (validate_key hash_key g.raw_key later
        (generate_key hash_key name user scopes expires_at (some random) now s).0).1
      ≡ ok (record g.key { last_used_at = some later })
unfolding generate_key
generate_key-validate_key hash_key name user scopes expires_at random now later s g fresh made
      lasts =
    let key = new_key hash_key (String.◌++◌ "gbk_" random) name user scopes expires_at in
    let e : record { key = (create key now s).1; raw_key = String.◌++◌ "gbk_" random } ≡ g = cc in
    rw (← e) (made_accepted hash_key _ key now later s fresh refl refl refl lasts)

module _ (hash_key : String → String) (id : ℕ) (s : ApiKeyStore) (k : ApiKey) (v : IsValid s)
    (found : find_first (has_id id) s.keys ≡ some k) where
  found_matches : (is_present k ≡ true) × (k.id ≡ id)
  found_matches =
      let (hit, _) = find_first_sound (has_id id) s.keys k found in
      (ground arith, ground (arith, nat_eq.equals_iff k.id id))

  changed_is_found :
      (f : ApiKey → ApiKey)
      → ((x : ApiKey) → (f x).key_hash ≡ x.key_hash)
      → is_present (f k) ≡ is_present k
      → find_first (has_hash k.key_hash) (modify_first (has_id id) f s.keys) ≡ some (f k)
  changed_is_found f same present =
      find_first_unique (λ x. x.key_hash) (has_hash k.key_hash) _ (f k)
        (Distinct-modify_first (λ x. x.key_hash) (has_id id) f same s.keys v.hashes)
        (In-modify_first (has_id id) f s.keys k found)
        (ground (arith, same k, found_matches, equals_refl k.key_hash))
        (λ y h. ground (arith, same k, string_eq.equals_iff y.key_hash k.key_hash))

  -- A deletion finds the key of a present id, if the ids and hashes are distinct; from then on no raw
  -- key with its hash is accepted, and the attempt changes nothing.
  pub delete-validate_key :
      (raw : String) (now later : ℕ)
      → hash_key raw ≡ k.key_hash
      → ((delete id now s).1 ≡ ok tt)
        × (validate_key hash_key raw later (delete id now s).0
            ≡ ((delete id now s).0, err unknown_key))
  unfolding delete validate_key find_by_hash
  delete-validate_key raw now later hashed =
      let gone =
        find_first_gone (λ (x : ApiKey). x.key_hash) (has_id id) (has_hash k.key_hash) (deleted now)
          s.keys k v.hashes found
          (λ y h. ground (arith, string_eq.equals_iff y.key_hash k.key_hash)) (ground arith) in
      rw (found, hashed, gone) (refl, refl)

  -- Setting the status of a present key to anything but active succeeds, if the ids and hashes are
  -- distinct; from then on no raw key with its hash is accepted, and the attempt changes nothing.
  pub update-validate_key :
      (raw : String) (w : Updates) (status : String) (now later : ℕ)
      → hash_key raw ≡ k.key_hash
      → w.status ≡ some status
      → status ≢ "active"
      → ((update id w now s).1 ≡ ok tt)
        × (validate_key hash_key raw later (update id w now s).0
            ≡ ((update id w now s).0, err disabled))
  unfolding update validate_key find_by_hash
  update-validate_key raw w status now later hashed set ne =
      let off : (status == "active") ≡ false =
        ground (arith, string_eq.equals_iff status "active") in
      rw (found, hashed, changed_is_found (updated w now) (λ x. refl) refl, set, off) (refl, refl)

-- Validating a raw key, whatever comes of it, leaves every key with another id than the accepted
-- one as it was.
pub validate_key-others :
    (hash_key : String → String) (raw : String) (now : ℕ) (s : ApiKeyStore) (k : ApiKey) (other : ℕ)
    → find_by_hash (hash_key raw) s ≡ ok k
    → k.id ≢ other
    → find_first (has_id other) (validate_key hash_key raw now s).0.keys
      ≡ find_first (has_id other) s.keys
unfolding validate_key update
validate_key-others hash_key raw now s k other found ne = rw found (ground (arith, undisturbed))
  where
    undisturbed :
        find_first (has_id other) (modify_first (has_id k.id) (updated (touched now) now) s.keys)
        ≡ find_first (has_id other) s.keys
    undisturbed =
        find_first-modify_first_ne (has_id k.id) (has_id other) (updated (touched now) now) s.keys
          (λ x h. ground (arith, nat_eq.equals_iff x.id k.id, nat_eq.equals_iff x.id other))

-- ===== src/Auth/ApiKeys/Unique.antt =====
-- What the API keys of internal/services/auth/apikey.go keep: ids are distinct and no greater than
-- the counter, and hashes are distinct as long as new raw keys have new hashes.
use go_backend_core.Prelude.{
  ℕ, ◌+◌, ◌%◌, ◌^◌, ◌≤◌, ◌<◌, ◌≡◌, refl, ◌≢◌, Bool, true, false, Option, none, some, List, [], ◌∷◌,
  ◌++◌, String, arith, All, if◌then◌else◌,
}
use Prim.Native.String
use go_backend_core.Prelude.Equality.{◌==◌, string_eq}
use go_backend_core.Prelude.Result.{Result, ok, err}
use go_backend_core.Prelude.Search.{modify_first, Distinct, Distinct-modify_first, Distinct-append}
use go_backend_core.Auth.ApiKeys.{
  ApiKey, ApiKeyStore, Updates, KeyError, has_id, create, change_found, update, delete, updated,
  deleted, touched, generate_key, validate_key, accept_found, is_expired, find_by_hash,
}

pub record IsValid (s : ApiKeyStore) : Type 0 where
  pub ids : Distinct (λ (k : ApiKey). k.id) s.keys
  pub hashes : Distinct (λ (k : ApiKey). k.key_hash) s.keys
  pub below : All (λ (k : ApiKey). k.id ≤ s.seq) s.keys

below-modify_first :
    (n : ℕ) (p : ApiKey → Bool) (f : ApiKey → ApiKey) (ks : List ApiKey)
    → ((k : ApiKey) → (f k).id ≡ k.id)
    → All (λ k. k.id ≤ n) ks
    → All (λ k. k.id ≤ n) (modify_first p f ks)
unfolding modify_first
below-modify_first n p f [] same h = tt
below-modify_first n p f (k ∷ ks) same (h, hs) =
    ground (arith, same k, below-modify_first n p f ks same hs)

change_found-IsValid :
    (id : ℕ) (f : ApiKey → ApiKey) (s : ApiKeyStore) (o : Option ApiKey)
    → ((k : ApiKey) → (f k).id ≡ k.id)
    → ((k : ApiKey) → (f k).key_hash ≡ k.key_hash)
    → IsValid s
    → IsValid (change_found id f s o).0
change_found-IsValid id f s none same_id same_hash v = v
change_found-IsValid id f s (some k) same_id same_hash v = record {
  ids = Distinct-modify_first (λ x. x.id) (has_id id) f same_id s.keys v.ids;
  hashes = Distinct-modify_first (λ x. x.key_hash) (has_id id) f same_hash s.keys v.hashes;
  below = below-modify_first s.seq (has_id id) f s.keys same_id v.below;
}

update-IsValid :
    (id : ℕ) (w : Updates) (now : ℕ) (s : ApiKeyStore) → IsValid s → IsValid (update id w now s).0
unfolding update
update-IsValid id w now s v = change_found-IsValid id (updated w now) s _ (λ k. refl) (λ k. refl) v

delete-IsValid : (id now : ℕ) (s : ApiKeyStore) → IsValid s → IsValid (delete id now s).0
unfolding delete
delete-IsValid id now s v = change_found-IsValid id (deleted now) s _ (λ k. refl) (λ k. refl) v

fresh_ids : (n m : ℕ) (ks : List ApiKey) → n < m → All (λ k. k.id ≤ n) ks → All (λ k. k.id ≢ m) ks
fresh_ids n m [] h b = tt
fresh_ids n m (k ∷ ks) h (b, bs) = (omega arith, fresh_ids n m ks h bs)

below_later :
    (n m : ℕ) (k : ApiKey) (ks : List ApiKey)
    → n ≤ m
    → k.id ≤ m
    → All (λ x. x.id ≤ n) ks
    → All (λ x. x.id ≤ m) (ks ++ k ∷ [])
below_later n m k [] h b bs = (b, tt)
below_later n m k (x ∷ ks) h b (y, bs) = (omega arith, below_later n m k ks h b bs)

create-IsValid :
    (key : ApiKey) (now : ℕ) (s : ApiKeyStore)
    → s.seq + 1 < 2 ^ 64
    → All (λ (k : ApiKey). k.key_hash ≢ key.key_hash) s.keys
    → IsValid s
    → IsValid (create key now s).0
unfolding create
create-IsValid key now s h fresh v =
    let next = (s.seq + 1) % 2 ^ 64 in
    let key' = record key { id = next; created_at = now; updated_at = now } in
    record {
      ids =
          Distinct-append (λ k. k.id) s.keys key' v.ids
            (fresh_ids s.seq next s.keys (omega arith) v.below);
      hashes = Distinct-append (λ k. k.key_hash) s.keys key' v.hashes fresh;
      below = below_later s.seq next key' s.keys (omega arith) (omega arith) v.below;
    }

pub data Request : Type 0 where
  generates : String → ℕ → String → Option ℕ → Option String → Request
  validates : String → Request
  updates : ℕ → Updates → Request
  deletes : ℕ → Request

if-IsValid :
    {R : Type 0} (b : Bool) (x y : ApiKeyStore × R)
    → IsValid x.0
    → IsValid y.0
    → IsValid (if b then x else y).0
if-IsValid true x y p q = p
if-IsValid false x y p q = q

module _ (hash_key : String → String) where
  accept_found-IsValid :
      (now : ℕ) (s : ApiKeyStore) (r : Result KeyError ApiKey)
      → IsValid s
      → IsValid (accept_found hash_key now s r).0
  accept_found-IsValid now s (err e) v = v
  accept_found-IsValid now s (ok k) v =
      if-IsValid (k.status == "active") _ _
        (if-IsValid (is_expired k.expires_at now) _ _ v (update-IsValid k.id (touched now) now s v))
        v

  unfoldable pub step : ApiKeyStore → ℕ × Request → ApiKeyStore
  step s (now, generates name user scopes expires_at random) =
      (generate_key hash_key name user scopes expires_at random now s).0
  step s (now, validates raw) = (validate_key hash_key raw now s).0
  step s (now, updates id w) = (update id w now s).0
  step s (now, deletes id) = (delete id now s).0

  -- A generated key whose hash no key of the store has.
  abbrev pub IsFresh : ApiKeyStore → Request → Type 0
  IsFresh s (generates name user scopes expires_at (some random)) =
      All (λ (k : ApiKey). k.key_hash ≢ hash_key (String.◌++◌ "gbk_" random)) s.keys
  IsFresh s (generates name user scopes expires_at none) = Unit
  IsFresh s (validates raw) = Unit
  IsFresh s (updates id w) = Unit
  IsFresh s (deletes id) = Unit

  -- Every request to the service keeps ids and hashes distinct and the ids below the counter, also
  -- when it fails, if the counter does not wrap and a generated key has a new hash.
  pub step_keys-IsValid :
      (s : ApiKeyStore) (now : ℕ) (r : Request)
      → s.seq + 1 < 2 ^ 64
      → IsFresh s r
      → IsValid s
      → IsValid (step s (now, r))
  unfolding step generate_key validate_key
  step_keys-IsValid s now (generates name user scopes expires_at none) h f v = v
  step_keys-IsValid s now (generates name user scopes expires_at (some random)) h f v =
      create-IsValid _ now s h f v
  step_keys-IsValid s now (validates raw) h f v =
      accept_found-IsValid now s (find_by_hash (hash_key raw) s) v
  step_keys-IsValid s now (updates id w) h f v = update-IsValid id w now s v
  step_keys-IsValid s now (deletes id) h f v = delete-IsValid id now s v

-- ===== src/Auth/ApiKeys.antt =====
-- internal/services/auth/apikey.go: the API keys kept in memory, and their service. The hash and
-- the random bytes (in hexadecimal) are parameters; an id has 64 bits. Of the update map, the five
-- known keys are kept, with values of the types that the code expects.
pub mod Lifecycle
pub mod Unique
mod Tests
use Prim.Native.String
use go_backend_core.Prelude.{
  ℕ, ◌+◌, ◌%◌, ◌^◌, ◌&&◌, Bool, true, false, Option, none, some, List, [], ◌∷◌, ◌++◌, String, keep,
  ltb, if◌then◌else◌,
}
use go_backend_core.Prelude.Int.{ℤ}
use go_backend_core.Prelude.Equality.{◌==◌, string_eq, nat_eq}
use go_backend_core.Prelude.Result.{Result, ok, err, ◌>>=◌, or_error}
use go_backend_core.Prelude.Search.{find_first, modify_first}
use go_backend_core.Auth.Listing.{list_page}

pub record ApiKey : Type 0 where
  pub id : ℕ
  pub name : String
  pub key_prefix : String
  pub key_hash : String
  pub user_id : ℕ
  pub scopes : String
  pub last_used_at : Option ℕ
  pub expires_at : Option ℕ
  pub status : String
  pub created_at : ℕ
  pub updated_at : ℕ
  pub deleted_at : Option ℕ

pub record ApiKeyStore : Type 0 where
  pub keys : List ApiKey
  pub seq : ℕ

abbrev pub new_api_key_store : ApiKeyStore
new_api_key_store = record { keys = []; seq = 0 }

pub record Updates : Type 0 where
  pub name : Option String
  pub scopes : Option String
  pub status : Option String
  pub last_used_at : Option (Option ℕ)
  pub expires_at : Option (Option ℕ)

pub data KeyError : Type 0 where
  unknown_key : KeyError
  unknown_id : ℕ → KeyError
  disabled : KeyError
  expired : KeyError
  no_randomness : KeyError

abbrev pub is_present : ApiKey → Bool
is_present k = elim k.deleted_at [ none ↦ true | some t ↦ false ]

abbrev pub has_hash : String → ApiKey → Bool
has_hash hash k = k.key_hash == hash && is_present k

abbrev pub has_id : ℕ → ApiKey → Bool
has_id id k = k.id == id && is_present k

-- `Create` sets the id and the times of the key that it is given.
unfoldable pub create : ApiKey → ℕ → ApiKeyStore → ApiKeyStore × ApiKey
create key now s =
    let next = (s.seq + 1) % 2 ^ 64 in
    let key' = record key { id = next; created_at = now; updated_at = now } in
    (record { keys = s.keys ++ key' ∷ []; seq = next }, key')

unfoldable pub find_by_hash : String → ApiKeyStore → Result KeyError ApiKey
find_by_hash hash s = or_error unknown_key (find_first (has_hash hash) s.keys)

unfoldable pub list_by_user : ℕ → ApiKeyStore → List ApiKey
list_by_user user s = keep (λ k. k.user_id == user && is_present k) s.keys

unfoldable pub list_all : ℤ → ℤ → ApiKeyStore → Option (List ApiKey × ℤ)
list_all page page_size s = list_page (keep is_present s.keys) page page_size

abbrev pub or_keep {ℓ} : {A : Type ℓ} → Option A → A → A
or_keep none old = old
or_keep (some new) old = new

abbrev pub updated : Updates → ℕ → ApiKey → ApiKey
updated w now k = record k {
  name = or_keep w.name k.name;
  scopes = or_keep w.scopes k.scopes;
  status = or_keep w.status k.status;
  last_used_at = or_keep w.last_used_at k.last_used_at;
  expires_at = or_keep w.expires_at k.expires_at;
  updated_at = now;
}

abbrev pub deleted : ℕ → ApiKey → ApiKey
deleted now k = record k { deleted_at = some now }

abbrev change_found :
    ℕ → (ApiKey → ApiKey) → ApiKeyStore → Option ApiKey → ApiKeyStore × Result KeyError (Unit {0})
change_found id f s none = (s, err (unknown_id id))
change_found id f s (some k) = (record s { keys = modify_first (has_id id) f s.keys }, ok tt)

-- The loop over the keys that changes the first present one of that id and returns.
unfoldable pub change :
    ℕ → (ApiKey → ApiKey) → ApiKeyStore → ApiKeyStore × Result KeyError (Unit {0})
change id f s = change_found id f s (find_first (has_id id) s.keys)

unfoldable pub update : ℕ → Updates → ℕ → ApiKeyStore → ApiKeyStore × Result KeyError (Unit {0})
unfolding change
update id w now s = change id (updated w now) s

unfoldable pub delete : ℕ → ℕ → ApiKeyStore → ApiKeyStore × Result KeyError (Unit {0})
unfolding change
delete id now s = change id (deleted now) s

pub record GeneratedKey : Type 0 where
  pub key : ApiKey
  pub raw_key : String

abbrev api_key_prefix : String
api_key_prefix = "gbk_"

abbrev pub touched : ℕ → Updates
touched now = record {
  name = none;
  scopes = none;
  status = none;
  last_used_at = some (some now);
  expires_at = none;
}

abbrev pub is_expired : Option ℕ → ℕ → Bool
is_expired none now = false
is_expired (some limit) now = ltb limit now

-- The service over the store, with the hash of a raw key.
module _ (hash_key : String → String) where
  abbrev new_key : String → String → ℕ → String → Option ℕ → ApiKey
  new_key raw name user scopes expires_at = record {
    id = 0;
    name = name;
    key_prefix = String.slice raw 0 10;
    key_hash = hash_key raw;
    user_id = user;
    scopes = scopes;
    last_used_at = none;
    expires_at = expires_at;
    status = "active";
    created_at = 0;
    updated_at = 0;
    deleted_at = none;
  }

  -- `random` is what `rand.Read` gave, if it did not fail.
  unfoldable pub generate_key :
      String
      → ℕ
      → String
      → Option ℕ
      → Option String
      → ℕ
      → ApiKeyStore
      → ApiKeyStore × Result KeyError GeneratedKey
  generate_key name user scopes expires_at none now s = (s, err no_randomness)
  generate_key name user scopes expires_at (some random) now s =
      let raw = String.◌++◌ api_key_prefix random in
      let (s', key) = create (new_key raw name user scopes expires_at) now s in
      (s', ok (record { key = key; raw_key = raw }))

  abbrev accept : ℕ → ApiKeyStore → ApiKey → ApiKeyStore × Result KeyError ApiKey
  accept now s k =
      if k.status == "active"
      then if is_expired k.expires_at now
        then (s, err expired)
        else ((update k.id (touched now) now s).0, ok (record k { last_used_at = some now }))
      else (s, err disabled)

  abbrev accept_found :
      ℕ → ApiKeyStore → Result KeyError ApiKey → ApiKeyStore × Result KeyError ApiKey
  accept_found now s (err e) = (s, err e)
  accept_found now s (ok k) = accept now s k

  -- `now` stands for the readings of the clock in one call.
  unfoldable pub validate_key : String → ℕ → ApiKeyStore → ApiKeyStore × Result KeyError ApiKey
  validate_key raw now s = accept_found now s (find_by_hash (hash_key raw) s)

-- ===== src/Auth/ApiKeys/Tests.antt =====
-- API keys at concrete requests, with a transparent hash.
use Prim.Native.String
use go_backend_core.Prelude.{◌≡◌, refl, some, none, [], ◌∷◌, String, arith}
use go_backend_core.Prelude.Equality.{string_eq}
use go_backend_core.Prelude.Result.{ok, err}
use go_backend_core.Prelude.Search.{find_first}
use go_backend_core.Auth.ApiKeys.{
  ApiKey, ApiKeyStore, Updates, unknown_key, disabled, expired, has_id, create, update, delete,
  find_by_hash, generate_key, validate_key, new_api_key_store,
}
use go_backend_core.Auth.ApiKeys.Unique.{IsValid, generates, step, step_keys-IsValid}
use go_backend_core.Auth.ApiKeys.Lifecycle.{
  generate_key-validate_key, delete-validate_key, update-validate_key, validate_key-others,
}

-- A hash that can be followed by eye: distinct texts have distinct hashes.
abbrev mark : String → String
mark raw = String.◌++◌ raw "#"

abbrev ci_key : ApiKey
ci_key = record {
  id = 1;
  name = "ci";
  key_prefix = "gbk_abcdef";
  key_hash = "gbk_abcdefgh#";
  user_id = 7;
  scopes = "*:*";
  last_used_at = none;
  expires_at = some 100;
  status = "active";
  created_at = 5;
  updated_at = 5;
  deleted_at = none;
}

abbrev store : ApiKeyStore
store = record { keys = ci_key ∷ []; seq = 1 }

store-IsValid : IsValid store
store-IsValid = record { ids = (tt, tt); hashes = (tt, tt); below = omega arith }

abbrev disabling : Updates
disabling = record {
  name = none;
  scopes = none;
  status = some "disabled";
  last_used_at = none;
  expires_at = none;
}

generated :
    generate_key mark "ci" 7 "*:*" (some 100) (some "abcdefgh") 5 new_api_key_store
    ≡ (store, ok (record { key = ci_key; raw_key = "gbk_abcdefgh" }))
unfolding generate_key create
generated = refl

late : (validate_key mark "gbk_abcdefgh" 101 store).1 ≡ err expired
unfolding validate_key find_by_hash find_first
late = refl

generate_key-validate_key_example :
    (validate_key mark "gbk_abcdefgh" 50
      (generate_key mark "ci" 7 "*:*" (some 100) (some "abcdefgh") 5 new_api_key_store).0).1
    ≡ ok (record ci_key { last_used_at = some 50 })
unfolding find_first generate_key create
generate_key-validate_key_example =
    generate_key-validate_key mark "ci" 7 "*:*" (some 100) "abcdefgh" 5 50 new_api_key_store
      (record { key = ci_key; raw_key = "gbk_abcdefgh" }) refl refl refl

step_keys-IsValid_example :
    IsValid (step mark new_api_key_store (5, generates "ci" 7 "*:*" none (some "abcdefgh")))
step_keys-IsValid_example =
    step_keys-IsValid mark new_api_key_store 5 (generates "ci" 7 "*:*" none (some "abcdefgh"))
      (omega arith) tt (record { ids = tt; hashes = tt; below = tt })

delete-validate_key_example :
    ((delete 1 9 store).1 ≡ ok tt)
    × (validate_key mark "gbk_abcdefgh" 10 (delete 1 9 store).0
        ≡ ((delete 1 9 store).0, err unknown_key))
unfolding find_first
delete-validate_key_example =
    delete-validate_key mark 1 store ci_key store-IsValid refl "gbk_abcdefgh" 9 10 refl

update-validate_key_test :
    ((update 1 disabling 9 store).1 ≡ ok tt)
    × (validate_key mark "gbk_abcdefgh" 10 (update 1 disabling 9 store).0
        ≡ ((update 1 disabling 9 store).0, err disabled))
unfolding find_first
update-validate_key_test =
    update-validate_key mark 1 store ci_key store-IsValid refl "gbk_abcdefgh" disabling "disabled" 9
      10 refl refl (ground (arith, string_eq.equals_iff "disabled" "active"))

validate_key-others_test :
    find_first (has_id 2) (validate_key mark "gbk_abcdefgh" 50 store).0.keys
    ≡ find_first (has_id 2) store.keys
unfolding find_by_hash find_first
validate_key-others_test =
    validate_key-others mark "gbk_abcdefgh" 50 store ci_key 2 refl (omega arith)

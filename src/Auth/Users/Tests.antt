-- ===== src/Auth/Users/Tests.antt =====
-- The user store at concrete requests, with a transparent hash that prefixes the salt's parity.
use go_backend_core.Prelude.{ℕ, ◌≡◌, refl, some, none, [], ◌∷◌, String, arith, Option, Bool}
use go_backend_core.Prelude.Equality.{◌==◌, string_eq, equals_refl}
use go_backend_core.Prelude.Result.{ok, err}
use go_backend_core.Prelude.Search.{find_first}
use go_backend_core.Auth.Users.{
  User, UserStore, RegisterRequest, active, new_user_store, create_user, verify_password,
  change_password, delete_user, find_by_id, find_by_username, with_password, name_unknown,
  name_taken, id_unknown, wrong_password,
}
use go_backend_core.Prelude.Int.{pos}
use go_backend_core.Auth.Listing.{list_page, list_page_lem}
use go_backend_core.Auth.Users.Hashing.{Bcrypt, IsSound}
use go_backend_core.Auth.Users.Invariant.{IsValid, create, remove, run, run_users-IsValid}
use go_backend_core.Auth.Users.Login.{create-verify, change_password-verify, delete_user_is_final}

-- A hash that keeps the password: sound, and easy to run.
abbrev plain : Bcrypt
plain = record {
  generate = λ password salt. some password;
  compare = λ hash password. hash == password;
}

plain-IsSound : IsSound plain
plain-IsSound = record { matches = λ password salt hash e. matches_self password hash e }
  where
    matches_self : (p h : String) → ◌≡◌ {A = Option String} (some p) (some h) → (h == p) ≡ Bool.true
    matches_self p h e = ground (arith, equals_refl h)

abbrev ann : RegisterRequest
ann = record { username = "ann"; password = "secret"; nickname = "" }

abbrev user_ann : User
user_ann = record {
  id = 1;
  username = "ann";
  password = "secret";
  nickname = "ann";
  email = "";
  avatar_url = "";
  phone = "";
  status = active;
  created_at = 5;
  updated_at = 5;
  deleted_at = none;
}

abbrev store : UserStore
store = record { users = user_ann ∷ []; seq = 1 }

store-IsValid : IsValid store
store-IsValid = record { names = (tt, tt); ids = (tt, tt); below = omega arith }

registered : create_user plain ann 0 5 new_user_store ≡ (store, ok user_ann)
unfolding create_user find_first
registered = refl

refused : verify_password plain "ann" "guess" store ≡ err wrong_password
unfolding verify_password find_by_username find_first
refused = refl

run_users-IsValid_example :
    IsValid (run plain new_user_store ((5, create ann 0) ∷ (6, create ann 0) ∷ (7, remove 1) ∷ []))
run_users-IsValid_example =
    run_users-IsValid plain ((5, create ann 0) ∷ (6, create ann 0) ∷ (7, remove 1) ∷ [])
      (omega arith)

create-verify_example :
    verify_password plain "ann" "secret" (create_user plain ann 0 5 new_user_store).0 ≡ ok user_ann
unfolding create_user find_first
create-verify_example = create-verify plain ann 0 5 new_user_store user_ann plain-IsSound refl

change_password-verify_example :
    ((change_password plain 1 "secret" "better" 0 9 store).1 ≡ ok tt)
    × (verify_password plain "ann" "better" (change_password plain 1 "secret" "better" 0 9 store).0
        ≡ ok (with_password "better" 9 user_ann))
unfolding find_by_id find_first
change_password-verify_example =
    change_password-verify plain 1 store user_ann "secret" "better" "better" 0 9 plain-IsSound
      store-IsValid refl refl refl refl

delete_user_is_final_example :
    ((delete_user 1 9 store).1 ≡ ok tt)
    × (find_by_id 1 (delete_user 1 9 store).0 ≡ err (id_unknown 1))
    × (verify_password plain "ann" "secret" (delete_user 1 9 store).0 ≡ err (name_unknown "ann"))
    × ((create_user plain ann 0 10 (delete_user 1 9 store).0).1 ≡ err (name_taken "ann"))
unfolding find_by_id find_first
delete_user_is_final_example =
    delete_user_is_final plain 1 store user_ann "secret" ann 9 0 10 store-IsValid refl refl

list_page_lem_test : list_page {A = ℕ} (1 ∷ 2 ∷ 3 ∷ []) (pos 2) (pos 2) ≡ some (3 ∷ [], pos 3)
list_page_lem_test = list_page_lem {A = ℕ} (1 ∷ 2 ∷ 3 ∷ []) (pos 2) (pos 2) (omega arith)

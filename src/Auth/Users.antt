-- ===== src/Auth/Users.antt =====
-- internal/services/auth/store.go and user.go: the users kept in memory. bcrypt is a parameter; the
-- random part of a hash and the clock are arguments; an id has 64 bits.
pub mod Hashing
pub mod Invariant
pub mod Login
mod Tests
use go_backend_core.Prelude.{
  ℕ, ◌+◌, ◌%◌, ◌^◌, ◌||◌, ◌&&◌, Bool, true, false, Option, none, some, List, [], ◌∷◌, ◌++◌, String,
  keep, if◌then◌else◌,
}
use go_backend_core.Prelude.Equality.{◌==◌, string_eq, nat_eq}
use go_backend_core.Prelude.Result.{Result, ok, err, ◌>>=◌, or_error}
use go_backend_core.Prelude.Search.{find_first, modify_first}
use go_backend_core.Prelude.Int.{ℤ}
use go_backend_core.Auth.Listing.{list_page}
use Hashing.{Bcrypt}

pub data UserStatus : Type 0 where
  active inactive suspended : UserStatus

pub record User : Type 0 where
  pub id : ℕ
  pub username : String
  pub password : String
  pub nickname : String
  pub email : String
  pub avatar_url : String
  pub phone : String
  pub status : UserStatus
  pub created_at : ℕ
  pub updated_at : ℕ
  pub deleted_at : Option ℕ

pub record RegisterRequest : Type 0 where
  pub username : String
  pub password : String
  pub nickname : String

-- A nil pointer leaves its field alone.
pub record UpdateUserRequest : Type 0 where
  pub nickname : Option String
  pub email : Option String
  pub avatar_url : Option String
  pub phone : Option String

pub record UserStore : Type 0 where
  pub users : List User
  pub seq : ℕ

pub data UserError : Type 0 where
  name_taken : String → UserError
  hash_failed : UserError
  name_unknown : String → UserError
  id_unknown : ℕ → UserError
  disabled : UserError
  wrong_password : UserError
  wrong_old_password : UserError

abbrev pub new_user_store : UserStore
new_user_store = record { users = []; seq = 0 }

abbrev pub is_present : User → Bool
is_present u = elim u.deleted_at [ none ↦ true | some t ↦ false ]

abbrev pub has_name : String → User → Bool
has_name name u = u.username == name

abbrev pub is_named : String → User → Bool
is_named name u = u.username == name && is_present u

abbrev pub has_id : ℕ → User → Bool
has_id id u = u.id == id && is_present u

unfoldable pub find_by_username : String → UserStore → Result UserError User
find_by_username name s = or_error (name_unknown name) (find_first (is_named name) s.users)

unfoldable pub find_by_id : ℕ → UserStore → Result UserError User
find_by_id id s = or_error (id_unknown id) (find_first (has_id id) s.users)

abbrev next_id : ℕ → ℕ
next_id seq = (seq + 1) % 2 ^ 64

abbrev new_user : RegisterRequest → String → ℕ → ℕ → User
new_user req hash id now = record {
  id = id;
  username = req.username;
  password = hash;
  nickname = if req.nickname == "" then req.username else req.nickname;
  email = "";
  avatar_url = "";
  phone = "";
  status = active;
  created_at = now;
  updated_at = now;
  deleted_at = none;
}

abbrev add_user :
    RegisterRequest → ℕ → UserStore → Option String → UserStore × Result UserError User
add_user req now s none = (s, err hash_failed)
add_user req now s (some hash) =
    let u = new_user req hash (next_id s.seq) now in
    (record { users = s.users ++ u ∷ []; seq = next_id s.seq }, ok u)

-- The user of that id that is not deleted is changed in its place.
abbrev change : ℕ → (User → User) → UserStore → UserStore
change id f s = record s { users = modify_first (has_id id) f s.users }

abbrev pub or_keep : Option String → String → String
or_keep none old = old
or_keep (some new) old = new

abbrev updated : UpdateUserRequest → ℕ → User → User
updated req now u = record u {
  nickname = or_keep req.nickname u.nickname;
  email = or_keep req.email u.email;
  avatar_url = or_keep req.avatar_url u.avatar_url;
  phone = or_keep req.phone u.phone;
  updated_at = now;
}

abbrev deleted : ℕ → User → User
deleted now u = record u { deleted_at = some now }

abbrev with_password : String → ℕ → User → User
with_password hash now u = record u { password = hash; updated_at = now }

-- An error leaves the store as it was.
abbrev apply_edit :
    ℕ → UserStore → User → Result UserError (User → User) → UserStore × Result UserError User
apply_edit id s u (err e) = (s, err e)
apply_edit id s u (ok g) = (change id g s, ok (g u))

abbrev edit_found :
    ℕ
    → UserStore
    → (User → Result UserError (User → User))
    → Result UserError User
    → UserStore × Result UserError User
edit_found id s f (err e) = (s, err e)
edit_found id s f (ok u) = apply_edit id s u (f u)

abbrev edit :
    ℕ → UserStore → (User → Result UserError (User → User)) → UserStore × Result UserError User
edit id s f = edit_found id s f (find_by_id id s)

-- For the methods that return nothing but an error.
abbrev error_only : UserStore × Result UserError User → UserStore × Result UserError (Unit {0})
error_only (s, ok u) = (s, ok tt)
error_only (s, err e) = (s, err e)

unfoldable pub update_user :
    ℕ → UpdateUserRequest → ℕ → UserStore → UserStore × Result UserError User
update_user id req now s = edit id s (λ u. ok (updated req now))

unfoldable pub delete_user : ℕ → ℕ → UserStore → UserStore × Result UserError (Unit {0})
delete_user id now s = error_only (edit id s (λ u. ok (deleted now)))

module _ (bcrypt : Bcrypt) where
  unfoldable pub create_user :
      RegisterRequest → ℕ → ℕ → UserStore → UserStore × Result UserError User
  create_user req salt now s = elim (find_first (has_name req.username) s.users) [
    | some u ↦ (s, err (name_taken req.username))
    | none ↦ add_user req now s (bcrypt.generate req.password salt)
  ]

  abbrev check_user : String → User → Result UserError User
  check_user password u = elim u.status [
    | active ↦ if bcrypt.compare u.password password then ok u else err wrong_password
    | _ ↦ err disabled
  ]

  unfoldable pub verify_password : String → String → UserStore → Result UserError User
  verify_password name password s = find_by_username name s >>= check_user password

  abbrev rehash : String → String → ℕ → ℕ → User → Result UserError (User → User)
  rehash old new salt now u =
      if bcrypt.compare u.password old
      then or_error hash_failed (bcrypt.generate new salt) >>= (λ hash. ok (with_password hash now))
      else err wrong_old_password

  unfoldable pub change_password :
      ℕ → String → String → ℕ → ℕ → UserStore → UserStore × Result UserError (Unit {0})
  change_password id old new salt now s = error_only (edit id s (rehash old new salt now))

-- Present users, with that name or nickname if a search is given.
abbrev pub is_listed : String → User → Bool
is_listed search u =
    is_present u && (search == "" || (u.username == search || u.nickname == search))

unfoldable pub list_users : ℤ → ℤ → String → UserStore → Option (List User × ℤ)
list_users page page_size search s = list_page (keep (is_listed search) s.users) page page_size

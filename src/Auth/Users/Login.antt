-- ===== src/Auth/Users/Login.antt =====
-- Registering, logging in, changing a password and deleting, in internal/services/auth/store.go.
use go_backend_core.Prelude.{
  ℕ, ◌≡◌, refl, inl, inr, true, Option, none, some, List, [], ◌∷◌, String, arith, Option-cases,
}
use go_backend_core.Prelude.Equality.{string_eq, nat_eq, equals_refl}
use go_backend_core.Prelude.Result.{ok, err, or_error}
use go_backend_core.Prelude.Search.{
  find_first, modify_first, find_first_sound, find_first_unique, find_first-append, find_first_gone,
  find_first-some, In-modify_first, Distinct-modify_first,
}
use go_backend_core.Auth.Users.{
  User, UserStore, UserError, RegisterRequest, active, name_taken, name_unknown, id_unknown,
  is_named, has_id, has_name, create_user, add_user, verify_password, delete_user, change_password,
  find_by_id, find_by_username, deleted, with_password, new_user, next_id, is_present,
}
use go_backend_core.Auth.Users.Hashing.{Bcrypt, IsSound}
use go_backend_core.Auth.Users.Invariant.{IsValid}

err-ne-ok : {A : Type 0} {e : UserError} {a : A} → err e ≡ ok a → ⊥
err-ne-ok h = cc

-- Nobody has the name, so nobody is found by it either.
unnamed-find :
    (name : String) (us : List User)
    → find_first (has_name name) us ≡ none
    → find_first (is_named name) us ≡ none
unfolding find_first
unnamed-find name [] h = refl
unnamed-find name (u ∷ us) h = ground (arith, unnamed-find name us)

module _ (bcrypt : Bcrypt) (sound : IsSound bcrypt) where
  add_verify :
      (req : RegisterRequest) (now : ℕ) (salt : ℕ) (s : UserStore) (hash : Option String)
      → find_first (has_name req.username) s.users ≡ none
      → bcrypt.generate req.password salt ≡ hash
      → (u : User) → (add_user req now s hash).1 ≡ ok u
      → verify_password bcrypt req.username req.password (add_user req now s hash).0 ≡ ok u
  unfolding verify_password find_by_username find_first
  add_verify req now salt s none free g u e = cc
  add_verify req now salt s (some hash) free g u e =
      let u' = new_user req hash (next_id s.seq) now in
      ground (
        arith,
        find_first-append (is_named req.username) s.users (u' ∷ [])
            (unnamed-find req.username s.users free),
        equals_refl req.username,
        sound.matches req.password salt hash g,
      )

-- Whoever registers can log in with that name and password, and gets the user that was made, if
-- bcrypt accepts the hashes that it generates.
pub create-verify :
    (bcrypt : Bcrypt) (req : RegisterRequest) (salt now : ℕ) (s : UserStore) (u : User)
    → IsSound bcrypt
    → (create_user bcrypt req salt now s).1 ≡ ok u
    → verify_password bcrypt req.username req.password (create_user bcrypt req salt now s).0 ≡ ok u
unfolding create_user
create-verify bcrypt req salt now s u sound e =
    elim (Option-cases (find_first (has_name req.username) s.users)) [
      | inl free ↦
          rw (free, create_user)
            (add_verify bcrypt sound req now salt s (bcrypt.generate req.password salt) free refl u
              (rw (free, create_user) at e))
      | inr (other, taken) ↦ absurd (err-ne-ok (rw (taken, create_user) at e))
    ]

found-ok : (e : UserError) (o : Option User) (u : User) → or_error e o ≡ ok u → o ≡ some u
found-ok e none u h = cc
found-ok e (some v) u h = cc

found_by_id :
    (id : ℕ) (s : UserStore) (u : User)
    → find_by_id id s ≡ ok u
    → find_first (has_id id) s.users ≡ some u
unfolding find_by_id
found_by_id id s u h = found-ok (id_unknown id) _ u h

module _ (id : ℕ) (s : UserStore) (u : User) (v : IsValid s) (found : find_by_id id s ≡ ok u) where
  id_matches : (is_present u ≡ true) × (u.id ≡ id)
  id_matches =
      let (hit, _) = find_first_sound (has_id id) s.users u (found_by_id id s u found) in
      (ground arith, ground (arith, nat_eq.equals_iff u.id id))

  -- The changed user is what its name finds.
  changed_is_found :
      (f : User → User)
      → ((x : User) → (f x).username ≡ x.username)
      → is_present (f u) ≡ is_present u
      → find_first (is_named u.username) (modify_first (has_id id) f s.users) ≡ some (f u)
  changed_is_found f same present =
      find_first_unique (λ x. x.username) (is_named u.username) _ (f u)
        (Distinct-modify_first (λ x. x.username) (has_id id) f same s.users v.names)
        (In-modify_first (has_id id) f s.users u (found_by_id id s u found))
        (ground (arith, same u, id_matches, equals_refl u.username))
        (λ y h. ground (arith, same u, string_eq.equals_iff y.username u.username))

-- Let the store be valid and bcrypt accept a password against a hash that it made of it. With the old
-- password, an active user's password is changed if the hash of the new one does not fail, and in the
-- store as it is then the user can log in with the new one.
pub change_password-verify :
    (bcrypt : Bcrypt) (id : ℕ) (s : UserStore) (u : User) (old new hash : String) (salt now : ℕ)
    → IsSound bcrypt
    → IsValid s
    → find_by_id id s ≡ ok u
    → u.status ≡ active
    → bcrypt.compare u.password old ≡ true
    → bcrypt.generate new salt ≡ some hash
    → ((change_password bcrypt id old new salt now s).1 ≡ ok tt)
      × (verify_password bcrypt u.username new (change_password bcrypt id old new salt now s).0
          ≡ ok (with_password hash now u))
unfolding change_password verify_password find_by_username
change_password-verify bcrypt id s u old new hash salt now sound v found live c g =
    rw
      (
        found,
        c,
        g,
        changed_is_found id s u v found (with_password hash now) (λ x. refl) refl,
        live,
        sound.matches new salt hash g,
      )
      (refl, refl)

id_missing :
    (id : ℕ) (s : UserStore)
    → find_first (has_id id) s.users ≡ none
    → find_by_id id s ≡ err (id_unknown id)
unfolding find_by_id
id_missing id s h = rw h

name_missing :
    (bcrypt : Bcrypt) (name password : String) (s : UserStore)
    → find_first (is_named name) s.users ≡ none
    → verify_password bcrypt name password s ≡ err (name_unknown name)
unfolding verify_password find_by_username
name_missing bcrypt name password s h = rw h

name_held :
    (bcrypt : Bcrypt) (req : RegisterRequest) (salt now : ℕ) (s : UserStore) (u : User)
    → find_first (has_name req.username) s.users ≡ some u
    → (create_user bcrypt req salt now s).1 ≡ err (name_taken req.username)
unfolding create_user
name_held bcrypt req salt now s u h = rw (h, create_user)

-- A deleted user is found neither by id nor by name, cannot log in, and still holds the name: no
-- other user can register it.
pub delete_user_is_final :
    (bcrypt : Bcrypt) (id : ℕ) (s : UserStore) (u : User) (password : String)
    (req : RegisterRequest) (now salt later : ℕ)
    → IsValid s
    → find_by_id id s ≡ ok u
    → req.username ≡ u.username
    → let s' = (delete_user id now s).0 in
      ((delete_user id now s).1 ≡ ok tt)
      × (find_by_id id s' ≡ err (id_unknown id))
      × (verify_password bcrypt u.username password s' ≡ err (name_unknown u.username))
      × ((create_user bcrypt req salt later s').1 ≡ err (name_taken req.username))
unfolding delete_user
delete_user_is_final bcrypt id s u password req now salt later v found same =
    let h = found_by_id id s u found in
    let m = id_matches id s u v found in
    let no_id =
      find_first_gone (λ (x : User). x.id) (has_id id) (has_id id) (deleted now) s.users u v.ids h
        (λ y k. ground (arith, m)) (ground arith) in
    let no_name =
      find_first_gone (λ (x : User). x.username) (has_id id) (is_named u.username) (deleted now)
        s.users u v.names h (λ y k. ground (arith, string_eq.equals_iff y.username u.username))
        (ground arith) in
    let (holder, held) =
      find_first-some (has_name u.username) (modify_first (has_id id) (deleted now) s.users)
        (deleted now u) (In-modify_first (has_id id) (deleted now) s.users u h)
        (equals_refl u.username) in
    rw found (
      refl,
      id_missing id _ no_id,
      name_missing bcrypt u.username password _ no_name,
      name_held bcrypt req salt later _ holder (rw same held),
    )

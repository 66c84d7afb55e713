-- ===== src/Auth/Users/Invariant.antt =====
-- What every operation on the users of internal/services/auth/store.go keeps: no two users, deleted
-- or not, share a name, and ids are distinct and no greater than the counter.
use go_backend_core.Prelude.{
  ℕ, ◌+◌, ◌^◌, ◌≤◌, ◌<◌, ◌≡◌, refl, ◌≢◌, inl, inr, Bool, Option, none, some, List, [], ◌∷◌, ◌++◌,
  String, arith, length, subst, All, Option-cases, Bool-cases,
}
use go_backend_core.Prelude.Equality.{string_eq}
use go_backend_core.Prelude.Result.{Result, ok, err, ◌>>=◌, or_error}
use go_backend_core.Prelude.Search.{
  find_first, modify_first, Distinct, Distinct-modify_first, Distinct-append,
}
use go_backend_core.Auth.Users.{
  User, UserStore, UserError, hash_failed, RegisterRequest, UpdateUserRequest, new_user_store,
  has_name, has_id, create_user, add_user, new_user, update_user, delete_user, change_password,
  edit_found, apply_edit, change, rehash, updated, deleted, with_password, find_by_id, error_only,
  next_id,
}
use go_backend_core.Auth.Users.Hashing.{Bcrypt}

pub record IsValid (s : UserStore) : Type 0 where
  pub names : Distinct (λ (u : User). u.username) s.users
  pub ids : Distinct (λ (u : User). u.id) s.users
  pub below : All (λ (u : User). u.id ≤ s.seq) s.users

new_user_store-IsValid : IsValid new_user_store
new_user_store-IsValid = record { names = tt; ids = tt; below = tt }

-- A change that touches neither the id nor the name.
record IsMild (f : User → User) : Type 0 where
  same_id : (u : User) → (f u).id ≡ u.id
  same_name : (u : User) → (f u).username ≡ u.username

below-modify_first :
    (n : ℕ) (p : User → Bool) (f : User → User) (us : List User)
    → ((u : User) → (f u).id ≡ u.id)
    → All (λ u. u.id ≤ n) us
    → All (λ u. u.id ≤ n) (modify_first p f us)
unfolding modify_first
below-modify_first n p f [] same h = tt
below-modify_first n p f (u ∷ us) same (h, hs) =
    ground (arith, same u, below-modify_first n p f us same hs)

change-IsValid :
    (id : ℕ) (f : User → User) (s : UserStore) → IsMild f → IsValid s → IsValid (change id f s)
change-IsValid id f s m v = record {
  names = Distinct-modify_first (λ u. u.username) (has_id id) f m.same_name s.users v.names;
  ids = Distinct-modify_first (λ u. u.id) (has_id id) f m.same_id s.users v.ids;
  below = below-modify_first s.seq (has_id id) f s.users m.same_id v.below;
}

apply_edit-IsValid :
    (id : ℕ) (s : UserStore) (u : User) (r : Result UserError (User → User))
    → ((g : User → User) → r ≡ ok g → IsMild g)
    → IsValid s
    → IsValid (apply_edit id s u r).0
apply_edit-IsValid id s u (err e) mild v = v
apply_edit-IsValid id s u (ok g) mild v = change-IsValid id g s (mild g refl) v

edit_found-IsValid :
    (id : ℕ) (s : UserStore) (f : User → Result UserError (User → User)) (r : Result UserError User)
    → ((u : User) (g : User → User) → f u ≡ ok g → IsMild g)
    → IsValid s
    → IsValid (edit_found id s f r).0
edit_found-IsValid id s f (err e) mild v = v
edit_found-IsValid id s f (ok u) mild v = apply_edit-IsValid id s u (f u) (mild u) v

error_only-IsValid :
    (r : UserStore × Result UserError User) → IsValid r.0 → IsValid (error_only r).0
error_only-IsValid (s, ok u) v = v
error_only-IsValid (s, err e) v = v

updated-IsMild : (req : UpdateUserRequest) (now : ℕ) → IsMild (updated req now)
updated-IsMild req now = record { same_id = λ u. refl; same_name = λ u. refl }

deleted-IsMild : (now : ℕ) → IsMild (deleted now)
deleted-IsMild now = record { same_id = λ u. refl; same_name = λ u. refl }

with_password-IsMild : (hash : String) (now : ℕ) → IsMild (with_password hash now)
with_password-IsMild hash now = record { same_id = λ u. refl; same_name = λ u. refl }

-- No user has the name that was searched for in vain.
unnamed :
    (name : String) (us : List User)
    → find_first (has_name name) us ≡ none
    → All (λ u. u.username ≢ name) us
unfolding find_first
unnamed name [] h = tt
unnamed name (u ∷ us) h =
    (ground (arith, string_eq.equals_iff u.username name), unnamed name us (ground arith))

fresh_ids : (n m : ℕ) (us : List User) → n < m → All (λ u. u.id ≤ n) us → All (λ u. u.id ≢ m) us
fresh_ids n m [] h b = tt
fresh_ids n m (u ∷ us) h (b, bs) = (omega arith, fresh_ids n m us h bs)

below_later :
    (n m : ℕ) (u : User) (us : List User)
    → n ≤ m
    → u.id ≤ m
    → All (λ x. x.id ≤ n) us
    → All (λ x. x.id ≤ m) (us ++ u ∷ [])
below_later n m u [] h k b = (k, tt)
below_later n m u (x ∷ us) h k (b, bs) = (omega arith, below_later n m u us h k bs)

add_user-IsValid :
    (req : RegisterRequest) (now : ℕ) (s : UserStore) (hash : Option String)
    → s.seq + 1 < 2 ^ 64
    → find_first (has_name req.username) s.users ≡ none
    → IsValid s
    → IsValid (add_user req now s hash).0
add_user-IsValid req now s none h free v = v
add_user-IsValid req now s (some hash) h free v =
    let u = new_user req hash (next_id s.seq) now in
    let next : next_id s.seq ≡ s.seq + 1 = omega arith in
    record {
      names =
          Distinct-append (λ x. x.username) s.users u v.names (unnamed req.username s.users free);
      ids =
          Distinct-append (λ x. x.id) s.users u v.ids
            (fresh_ids s.seq (next_id s.seq) s.users (omega arith) v.below);
      below = below_later s.seq (next_id s.seq) u s.users (omega arith) (omega arith) v.below;
    }

-- An operation that changes the store, with the random part of a hash where it makes one.
pub data Operation : Type 0 where
  create : RegisterRequest → ℕ → Operation
  update : ℕ → UpdateUserRequest → Operation
  remove : ℕ → Operation
  set_password : ℕ → String → String → ℕ → Operation

same-IsMild :
    (f g : User → User)
    → IsMild f
    → ◌≡◌ {A = Result UserError (User → User)} (ok f) (ok g)
    → IsMild g
same-IsMild f g m e = subst IsMild (cc) m

err-ne-ok : {A : Type 0} {e : UserError} {a : A} → err e ≡ ok a → ⊥
err-ne-ok h = cc

hashed-IsMild :
    (now : ℕ) (hash : Option String) (g : User → User)
    → (or_error hash_failed hash >>= (λ h. ok (with_password h now))) ≡ ok g
    → IsMild g
hashed-IsMild now none g e = absurd (err-ne-ok e)
hashed-IsMild now (some hash) g e = subst IsMild (cc) (with_password-IsMild hash now)

module _ (bcrypt : Bcrypt) where
  create_user-IsValid :
      (req : RegisterRequest) (salt now : ℕ) (s : UserStore)
      → s.seq + 1 < 2 ^ 64
      → IsValid s
      → IsValid (create_user bcrypt req salt now s).0
  unfolding create_user
  create_user-IsValid req salt now s h v =
      elim (Option-cases (find_first (has_name req.username) s.users)) [
        | inl free ↦
            rw (free, create_user)
              (add_user-IsValid req now s (bcrypt.generate req.password salt) h free v)
        | inr (u, taken) ↦ rw (taken, create_user) v
      ]

  rehash-IsMild :
      (old new : String) (salt now : ℕ) (u : User) (g : User → User)
      → rehash bcrypt old new salt now u ≡ ok g
      → IsMild g
  rehash-IsMild old new salt now u g e = elim (Bool-cases (bcrypt.compare u.password old)) [
    | inl same ↦ hashed-IsMild now (bcrypt.generate new salt) g (rw same at e)
    | inr other ↦ absurd (err-ne-ok (rw other at e))
  ]

  unfoldable pub step : UserStore → ℕ × Operation → UserStore
  step s (now, create req salt) = (create_user bcrypt req salt now s).0
  step s (now, update id req) = (update_user id req now s).0
  step s (now, remove id) = (delete_user id now s).0
  step s (now, set_password id old new salt) = (change_password bcrypt id old new salt now s).0

  unfoldable pub run : UserStore → List (ℕ × Operation) → UserStore
  run s [] = s
  run s (o ∷ os) = run (step s o) os

  step-IsValid :
      (s : UserStore) (o : ℕ × Operation) → s.seq + 1 < 2 ^ 64 → IsValid s → IsValid (step s o)
  unfolding step update_user delete_user change_password
  step-IsValid s (now, create req salt) h v = create_user-IsValid req salt now s h v
  step-IsValid s (now, update id req) h v =
      edit_found-IsValid id s _ (find_by_id id s)
        (λ u g e. same-IsMild _ g (updated-IsMild req now) e) v
  step-IsValid s (now, remove id) h v = error_only-IsValid _ (
      edit_found-IsValid id s _ (find_by_id id s) (λ u g e. same-IsMild _ g (deleted-IsMild now) e)
        v)
  step-IsValid s (now, set_password id old new salt) h v = error_only-IsValid _ (
      edit_found-IsValid id s _ (find_by_id id s) (λ u g e. rehash-IsMild old new salt now u g e) v)

  step-seq : (s : UserStore) (o : ℕ × Operation) → (step s o).seq ≤ s.seq + 1
  unfolding step create_user update_user delete_user change_password
  step-seq s (now, create req salt) = ground arith
  step-seq s (now, update id req) = ground arith
  step-seq s (now, remove id) = ground arith
  step-seq s (now, set_password id old new salt) = ground arith

  run-IsValid :
      (limit : ℕ) (s : UserStore) (os : List (ℕ × Operation))
      → s.seq + length os < limit
      → limit ≤ 2 ^ 64
      → IsValid s
      → IsValid (run s os)
  unfolding run
  run-IsValid limit s [] h k v = v
  run-IsValid limit s (o ∷ os) h k v =
      run-IsValid limit (step s o) os (omega (arith, step-seq s o)) k
        (step-IsValid s o (omega arith) v)

-- After any operations on an empty store, fewer than 2^64 of them and failed ones included, all
-- user names are distinct, those of deleted users too, and so are the ids, none above the counter.
pub run_users-IsValid :
    (bcrypt : Bcrypt) (os : List (ℕ × Operation))
    → length os < 2 ^ 64
    → IsValid (run bcrypt new_user_store os)
run_users-IsValid bcrypt os h =
    run-IsValid bcrypt (2 ^ 64) new_user_store os (omega arith) (omega arith) new_user_store-IsValid

-- ===== src/Auth/Rbac/Decisions.antt =====
-- Who may do what, by internal/services/auth/rbac.go: the decision does not depend on the removal of
-- duplicates, and assigning a role touches nobody else.
use go_backend_core.Prelude.{
  ℕ, ◌≡◌, refl, ◌≢◌, ap, ◌∙◌, ◌||◌, Bool, true, inl, inr, ◌⊎◌, List, [], ◌∷◌, ◌++◌, String, arith,
  All, All-append, Bool-cases,
}
use go_backend_core.Prelude.Equality.{◌==◌, string_eq, nat_eq}
use go_backend_core.Prelude.Dict.{read, read-write}
use go_backend_core.Prelude.Result.{Result, ok, err}
use go_backend_core.Auth.Rbac.{
  Permission, MemoryStore, or_empty, assign_role, get_roles, has_seen, unseen, role_permissions,
  get_permissions, in_memory, grants, any, has_permission,
}

any_of_seen :
    (v : String → Bool) (name : String) (seen : List String)
    → has_seen name seen ≡ true
    → v name ≡ true
    → any v seen ≡ true
any_of_seen v name [] h k = cc
any_of_seen v name (n ∷ seen) h k =
    ground (arith, string_eq.equals_iff n name, any_of_seen v name seen)

any-unseen :
    (g : Permission → Bool) (v : String → Bool) (seen : List String) (ps : List Permission)
    → All (λ p. g p ≡ v p.name) ps
    → (any v seen || any g (unseen seen ps)) ≡ (any v seen || any g ps)
unfolding unseen
any-unseen g v seen [] h = refl
any-unseen g v seen (p ∷ ps) (e, h) = ground (
  arith,
  any_of_seen v p.name seen,
  any-unseen g v seen ps h,
  any-unseen g v (p.name ∷ seen) ps h,
)

pub any-append {ℓ} :
    {A : Type ℓ} (p : A → Bool) (xs ys : List A) → any p (xs ++ ys) ≡ (any p xs || any p ys)
any-append p [] ys = refl
any-append p (x ∷ xs) ys = ground (arith, any-append p xs ys)

-- A name stands for one resource and one action, whichever role holds it.
pub record IsCoherent (s : MemoryStore) : Type 0 where
  pub meaning : String → String × String
  pub agrees :
      (role : String)
      → All
          (λ (p : Permission). meaning p.name ≡ (p.resource, p.action))
          (or_empty (read role s.permissions))

All-role_permissions :
    (P : Permission → Type 0) (roles : List String) (s : MemoryStore)
    → ((role : String) → All P (or_empty (read role s.permissions)))
    → All P (role_permissions roles s)
unfolding role_permissions
All-role_permissions P [] s h = tt
All-role_permissions P (role ∷ roles) s h =
    All-append P _ _ (h role) (All-role_permissions P roles s h)

any-role_permissions :
    (g : Permission → Bool) (roles : List String) (s : MemoryStore)
    → any g (role_permissions roles s)
      ≡ any (λ role. any g (or_empty (read role s.permissions))) roles
unfolding role_permissions
any-role_permissions g [] s = refl
any-role_permissions g (role ∷ roles) s =
    any-append g (or_empty (read role s.permissions)) (role_permissions roles s)
    ∙ ap (λ b. any g (or_empty (read role s.permissions)) || b) (any-role_permissions g roles s)

-- The verdict that a name's meaning gives.
abbrev verdict : String → String → String × String → Bool
verdict resource action (r, a) =
    grants resource action (record { name = ""; resource = r; action = a })

All-verdict :
    (resource action : String) (meaning : String → String × String) (ps : List Permission)
    → All (λ (p : Permission). meaning p.name ≡ (p.resource, p.action)) ps
    → All
        (λ (p : Permission). grants resource action p ≡ verdict resource action (meaning p.name))
        ps
All-verdict resource action meaning [] h = tt
All-verdict resource action meaning (p ∷ ps) (e, h) =
    (rw e, All-verdict resource action meaning ps h)

-- A user is allowed exactly if some permission of one of the user's roles grants the action,
-- although duplicates are dropped by their names, if equal names mean equal permissions.
pub has_permission_iff_granted :
    (user : ℕ) (resource action : String) (s : MemoryStore)
    → IsCoherent s
    → has_permission in_memory user resource action s
      ≡ any
          (λ role. any (grants resource action) (or_empty (read role s.permissions)))
          (get_roles user s)
unfolding has_permission get_permissions
has_permission_iff_granted user resource action s c =
    any-unseen (grants resource action) (λ n. verdict resource action (c.meaning n)) []
      (role_permissions (get_roles user s) s)
      (All-verdict resource action c.meaning _
        (All-role_permissions _ (get_roles user s) s c.agrees))
    ∙ any-role_permissions (grants resource action) (get_roles user s) s

-- What an assignment of a role may do to a store.
abbrev pub Assigns : ℕ → String → MemoryStore → MemoryStore × Result String (Unit {0}) → Type 0
Assigns user role s (s', ok done) =
    ((role ≡ "admin") ⊎ (role ≡ "user"))
    × (get_roles user s' ≡ role ∷ [])
    × ((other : ℕ) → (get_roles other s' ≡ get_roles other s) ⊎ (other ≡ user))
    × (s'.permissions ≡ s.permissions)
Assigns user role s (s', err e) = (role ≢ "admin") × (role ≢ "user") × (e ≡ role) × (s' ≡ s)

-- Assigning a known role makes it the user's only role, and any other role is refused with the store
-- unchanged; everybody else's roles and all permissions stay as they were.
pub assign_role-Assigns :
    (user : ℕ) (role : String) (s : MemoryStore) → Assigns user role s (assign_role user role s)
unfolding assign_role get_roles
assign_role-Assigns user role s = elim (Bool-cases (role == "admin" || role == "user")) [
  | inl known ↦ rw known (
    ground (arith, string_eq.equals_iff role "admin", string_eq.equals_iff role "user"),
    rw (read-write user user (role ∷ []) s.user_roles)
        (ground (arith, nat_eq.equals_iff user user)),
    (λ other.
        rw (read-write user other (role ∷ []) s.user_roles)
          (ground (arith, nat_eq.equals_iff user other))),
    refl,
  )
  | inr unknown ↦ rw unknown (
    ground (arith, string_eq.equals_iff role "admin"),
    ground (arith, string_eq.equals_iff role "user"),
    refl,
    refl,
  )
]

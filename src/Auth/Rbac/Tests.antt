-- ===== src/Auth/Rbac/Tests.antt =====
-- The store of roles at concrete users.
use go_backend_core.Prelude.{
  ◌≡◌, refl, true, inl, inr, [], ◌∷◌, String, Bool-cases, if◌then◌else◌, All,
}
use go_backend_core.Prelude.Equality.{◌==◌, string_eq}
use go_backend_core.Prelude.Dict.{read, write}
use go_backend_core.Prelude.Result.{ok, err}
use go_backend_core.Auth.Rbac.{
  Permission, MemoryStore, new_memory_store, ensure_default_permissions, assign_role, or_empty,
  permission_of, in_memory, has_permission, require_permission, get_roles, get_permissions, unseen,
  role_permissions, grant_roles, grant_all, any, grants,
}
use go_backend_core.Auth.Rbac.Decisions.{
  IsCoherent, Assigns, has_permission_iff_granted, assign_role-Assigns,
}

abbrev store : MemoryStore
store = record {
  permissions =
      ("user", permission_of ("task", "read") ∷ [])
      ∷ ("admin", permission_of ("task", "read") ∷ permission_of ("*", "*") ∷ [])
      ∷ [];
  user_roles = (7, "admin" ∷ "user" ∷ []) ∷ [];
}

abbrev meaning : String → String × String
meaning name = if name == "task:read" then ("task", "read") else ("*", "*")

store-agrees :
    (role : String)
    → All
        (λ (p : Permission). meaning p.name ≡ (p.resource, p.action))
        (or_empty (read role store.permissions))
unfolding read
store-agrees role = elim (Bool-cases ("user" == role)) [
  | inl user ↦ rw user (refl, tt)
  | inr other ↦ rw other (elim (Bool-cases ("admin" == role)) [
    | inl admin ↦ rw admin (refl, (refl, tt))
    | inr neither ↦ rw neither tt
  ])
]

store-IsCoherent : IsCoherent store
store-IsCoherent = record { meaning = meaning; agrees = store-agrees }

administrator : has_permission in_memory 7 "user" "delete" store ≡ true
unfolding has_permission get_permissions unseen role_permissions get_roles read
administrator = refl

stranger :
    require_permission in_memory "task" "delete" 8 (ensure_default_permissions new_memory_store)
    ≡ ok tt
unfolding require_permission has_permission get_permissions unseen role_permissions get_roles read
    ensure_default_permissions grant_roles grant_all write
stranger = refl

denied :
    require_permission in_memory "user" "delete" 8 (ensure_default_permissions new_memory_store)
    ≡ err ("user", "delete")
unfolding require_permission has_permission get_permissions unseen role_permissions get_roles read
    ensure_default_permissions grant_roles grant_all write
denied = refl

has_permission_iff_granted_example :
    has_permission in_memory 7 "user" "delete" store
    ≡ any
        (λ role. any (grants "user" "delete") (or_empty (read role store.permissions)))
        (get_roles 7 store)
has_permission_iff_granted_example =
    has_permission_iff_granted 7 "user" "delete" store store-IsCoherent

assign_role-Assigns_test : Assigns 7 "user" store (assign_role 7 "user" store)
assign_role-Assigns_test = assign_role-Assigns 7 "user" store

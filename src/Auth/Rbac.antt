-- ===== src/Auth/Rbac.antt =====
-- internal/services/auth/rbac.go: roles and permissions in memory, and the service over any store.
-- The id and the creation time of a permission stay zero and are left out.
pub mod Decisions
mod Tests
use Prim.Native.String
use go_backend_core.Prelude.{
  ℕ, ◌&&◌, ◌||◌, Bool, true, false, Option, none, some, List, [], ◌∷◌, ◌++◌, map, String,
  if◌then◌else◌,
}
use go_backend_core.Prelude.Equality.{◌==◌, string_eq, nat_eq}
use go_backend_core.Prelude.Dict.{Dict, read, write}
use go_backend_core.Prelude.Result.{Result, ok, err}

pub record Permission : Type 0 where
  pub name : String
  pub resource : String
  pub action : String

-- The order of a Go map's keys is free; here it is that of the source.
abbrev pub default_permissions : List (String × List (String × String))
default_permissions =
    ("admin", ("*", "*") ∷ [])
    ∷ (
      "user",
      ("task", "read")
          ∷ ("task", "create")
          ∷ ("task", "update")
          ∷ ("task", "delete")
          ∷ ("user", "read")
          ∷ ("user", "update")
          ∷ [],
    )
    ∷ []

pub record MemoryStore : Type 0 where
  pub permissions : Dict String (List Permission)
  pub user_roles : Dict ℕ (List String)

abbrev pub new_memory_store : MemoryStore
new_memory_store = record { permissions = []; user_roles = [] }

-- Go reads a missing key as an empty list.
abbrev pub or_empty {ℓ} : {A : Type ℓ} → Option (List A) → List A
or_empty none = []
or_empty (some xs) = xs

abbrev pub permission_of : String × String → Permission
permission_of (resource, action) = record {
  name = String.◌++◌ resource (String.◌++◌ ":" action);
  resource = resource;
  action = action;
}

unfoldable pub grant_all :
    String → List (String × String) → Dict String (List Permission) → Dict String (List Permission)
grant_all role [] m = m
grant_all role (p ∷ ps) m =
    grant_all role ps (write role (or_empty (read role m) ++ permission_of p ∷ []) m)

unfoldable pub grant_roles :
    List (String × List (String × String))
    → Dict String (List Permission)
    → Dict String (List Permission)
grant_roles [] m = m
grant_roles ((role, ps) ∷ rest) m = grant_roles rest (grant_all role ps m)

unfoldable pub ensure_default_permissions : MemoryStore → MemoryStore
ensure_default_permissions s = record s {
  permissions = grant_roles default_permissions s.permissions;
}

-- The error names the role.
unfoldable pub assign_role : ℕ → String → MemoryStore → MemoryStore × Result String (Unit {0})
assign_role user role s =
    if role == "admin" || role == "user"
    then (record s { user_roles = write user (role ∷ []) s.user_roles }, ok tt)
    else (s, err role)

abbrev or_user : List String → List String
or_user [] = "user" ∷ []
or_user (r ∷ rs) = r ∷ rs

unfoldable pub get_roles : ℕ → MemoryStore → List String
get_roles user s = or_user (or_empty (read user s.user_roles))

abbrev pub has_seen : String → List String → Bool
has_seen name [] = false
has_seen name (n ∷ ns) = n == name || has_seen name ns

-- The inner loop, with the names seen so far.
unfoldable pub unseen : List String → List Permission → List Permission
unseen seen [] = []
unseen seen (p ∷ ps) =
    if has_seen p.name seen then unseen seen ps else p ∷ unseen (p.name ∷ seen) ps

-- The permissions of the roles, one role after another.
unfoldable pub role_permissions : List String → MemoryStore → List Permission
role_permissions [] s = []
role_permissions (role ∷ roles) s = or_empty (read role s.permissions) ++ role_permissions roles s

unfoldable pub get_permissions : List String → MemoryStore → List Permission
get_permissions roles s = unseen [] (role_permissions roles s)

-- What the service asks of a store.
pub record RbacStore (S : Type 0) : Type 0 where
  pub roles_of : ℕ → S → Result String (List String)
  pub permissions_of : List String → S → Result String (List Permission)

abbrev pub in_memory : RbacStore MemoryStore
in_memory = record {
  roles_of = λ user s. ok (get_roles user s);
  permissions_of = λ roles s. ok (get_permissions roles s);
}

abbrev pub grants : String → String → Permission → Bool
grants resource action p =
    (p.resource == "*" && p.action == "*")
    || (p.resource == resource && (p.action == "*" || p.action == action))

abbrev pub any {ℓ} : {A : Type ℓ} → (A → Bool) → List A → Bool
any p [] = false
any p (x ∷ xs) = p x || any p xs

module _ {S : Type 0} (store : RbacStore S) where
  abbrev check_permissions : String → String → Result String (List Permission) → Bool
  check_permissions resource action (err e) = false
  check_permissions resource action (ok ps) = any (grants resource action) ps

  abbrev check_roles : String → String → S → Result String (List String) → Bool
  check_roles resource action s (err e) = false
  check_roles resource action s (ok roles) =
      check_permissions resource action (store.permissions_of roles s)

  unfoldable pub has_permission : ℕ → String → String → S → Bool
  has_permission user resource action s = check_roles resource action s (store.roles_of user s)

  unfoldable pub require_permission : String → String → ℕ → S → Result (String × String) (Unit {0})
  require_permission resource action user s =
      if has_permission user resource action s then ok tt else err (resource, action)

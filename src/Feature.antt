-- ===== src/Feature.antt =====
-- internal/services/feature/feature.go and store.go: the feature flags in memory, and the manager
-- that saves each change in a store, which is a parameter.
pub mod Flags
mod Tests
use go_backend_core.Prelude.{
  Bool, true, false, Option, none, some, List, [], ◌∷◌, map, String, if◌then◌else◌,
}
use go_backend_core.Prelude.Equality.{string_eq}
use go_backend_core.Prelude.Dict.{Dict, read, write, delete}
use go_backend_core.Prelude.Result.{Result, ok, err}

pub record Flag : Type 0 where
  pub name : String
  pub enabled : Bool
  pub description : String

pub record Manager : Type 0 where
  pub flags : Dict String Flag

pub data FlagError : Type 0 where
  already_registered not_found : String → FlagError
  load_failed save_failed delete_failed : FlagError

abbrev pub new_manager : Manager
new_manager = record { flags = [] }

-- The answer of a method that returns only an error.
abbrev pub Done : Type 0
Done = Result FlagError (Unit {0})

abbrev pub register_absent : Flag → Manager → Option Flag → Manager × Done
register_absent flag m (some old) = (m, err (already_registered flag.name))
register_absent flag m none = (record m { flags = write flag.name flag m.flags }, ok tt)

unfoldable pub register : Flag → Manager → Manager × Done
register flag m = register_absent flag m (read flag.name m.flags)

unfoldable pub register_or_update : Flag → Manager → Manager
register_or_update flag m = record m { flags = write flag.name flag m.flags }

abbrev is_on : Option Flag → Bool
is_on none = false
is_on (some f) = f.enabled

unfoldable pub is_enabled : String → Manager → Bool
is_enabled name m = is_on (read name m.flags)

abbrev pub switch_found : String → Bool → Manager → Option Flag → Manager × Done
switch_found name on m none = (m, err (not_found name))
switch_found name on m (some f) =
    (record m { flags = write name (record f { enabled = on }) m.flags }, ok tt)

unfoldable pub enable : String → Manager → Manager × Done
enable name m = switch_found name true m (read name m.flags)

unfoldable pub disable : String → Manager → Manager × Done
disable name m = switch_found name false m (read name m.flags)

abbrev pub remove_found : String → Manager → Option Flag → Manager × Done
remove_found name m none = (m, err (not_found name))
remove_found name m (some f) = (record m { flags = delete name m.flags }, ok tt)

unfoldable pub remove : String → Manager → Manager × Done
remove name m = remove_found name m (read name m.flags)

abbrev values : Dict String Flag → List Flag
values [] = []
values ((name, f) ∷ rest) = f ∷ values rest

-- In the order of the map, which Go leaves free.
unfoldable pub list : Manager → List Flag
list m = values m.flags

unfoldable pub get : String → Manager → Option Flag
get name m = read name m.flags

-- The persistent store, with its state.
pub record Store (D : Type 0) : Type 0 where
  pub load : D → Result FlagError (List Flag)
  pub save : Flag → D → D × Done
  pub erase : String → D → D × Done

-- A missing flag is read as the zero flag.
abbrev or_zero : Option Flag → Flag
or_zero none = record { name = ""; enabled = false; description = "" }
or_zero (some f) = f

module _ {D : Type 0} (store : Store D) where
  -- The error of the store is ignored.
  unfoldable pub sync_register_or_update : Flag → Manager → D → Manager × D
  sync_register_or_update flag m d = (register_or_update flag m, (store.save flag d).0)

  -- The loop of `Start`, which saves each flag again.
  unfoldable pub register_all : List Flag → Manager → D → Manager × D
  register_all [] m d = (m, d)
  register_all (f ∷ fs) m d = let (m', d') = sync_register_or_update f m d in register_all fs m' d'

  abbrev pub start_with : Manager → D → Result FlagError (List Flag) → Manager × D × Done
  start_with m d (err e) = (m, d, err load_failed)
  start_with m d (ok fs) = let (m', d') = register_all fs m d in (m', d', ok tt)

  unfoldable pub start : Manager → D → Manager × D × Done
  start m d = start_with m d (store.load d)

  abbrev pub persist : (Manager → D → D × Done) → D → Manager × Done → Manager × D × Done
  persist save d (m, err e) = (m, d, err e)
  persist save d (m, ok done) = let (d', answer) = save m d in (m, d', answer)

  unfoldable pub sync_enable : String → Manager → D → Manager × D × Done
  sync_enable name m d = persist (λ m'. store.save (or_zero (get name m'))) d (enable name m)

  unfoldable pub sync_disable : String → Manager → D → Manager × D × Done
  sync_disable name m d = persist (λ m'. store.save (or_zero (get name m'))) d (disable name m)

  unfoldable pub sync_register : Flag → Manager → D → Manager × D × Done
  sync_register flag m d = persist (λ m'. store.save flag) d (register flag m)

  unfoldable pub sync_remove : String → Manager → D → Manager × D × Done
  sync_remove name m d = persist (λ m'. store.erase name) d (remove name m)

-- ===== src/Feature/Flags.antt =====
-- The flags of internal/services/feature/feature.go, compared with a function from names to flags.
use go_backend_core.Prelude.{
  ◌≡◌, refl, sym, Bool, true, false, Option, none, some, List, [], ◌∷◌, String, arith,
  if◌then◌else◌,
}
use go_backend_core.Prelude.Equality.{◌==◌, string_eq}
use go_backend_core.Prelude.Dict.{read, write, read-write, read-delete}
use go_backend_core.Prelude.Result.{ok, err}
use go_backend_core.Feature.{
  Flag, Manager, already_registered, not_found, Done, register, register_or_update, enable, disable,
  remove, get, register_absent, switch_found, remove_found, new_manager,
}

pub data Call : Type 0 where
  registers updates : Flag → Call
  enables disables removes : String → Call

unfoldable pub step : Manager → Call → Manager × Done
step m (registers flag) = register flag m
step m (updates flag) = (register_or_update flag m, ok tt)
step m (enables name) = enable name m
step m (disables name) = disable name m
step m (removes name) = remove name m

unfoldable pub run : Manager → List Call → Manager × List Done
run m [] = (m, [])
run m (c ∷ cs) =
    let (m', answer) = step m c in let (last, answers) = run m' cs in (last, answer ∷ answers)

abbrev pub View : Type 0
View = String → Option Flag

abbrev pub set : String → Option Flag → View → View
set name o view other = if name == other then o else view other

abbrev view_register : Flag → View → Option Flag → View × Done
view_register flag view (some old) = (view, err (already_registered flag.name))
view_register flag view none = (set flag.name (some flag) view, ok tt)

abbrev view_switch : String → Bool → View → Option Flag → View × Done
view_switch name on view none = (view, err (not_found name))
view_switch name on view (some f) = (set name (some (record f { enabled = on })) view, ok tt)

abbrev view_remove : String → View → Option Flag → View × Done
view_remove name view none = (view, err (not_found name))
view_remove name view (some f) = (set name none view, ok tt)

abbrev pub view_step : View → Call → View × Done
view_step view (registers flag) = view_register flag view (view flag.name)
view_step view (updates flag) = (set flag.name (some flag) view, ok tt)
view_step view (enables name) = view_switch name true view (view name)
view_step view (disables name) = view_switch name false view (view name)
view_step view (removes name) = view_remove name view (view name)

abbrev pub view_run : View → List Call → View × List Done
view_run view [] = (view, [])
view_run view (c ∷ cs) =
    let (view', answer) = view_step view c in
    let (last, answers) = view_run view' cs in (last, answer ∷ answers)

abbrev pub Shows : Manager → View → Type 0
Shows m view = (name : String) → get name m ≡ view name

StepShows : Manager × Done → View × Done → Type 0
StepShows (m, answer) (view, expected) = Shows m view × (answer ≡ expected)

write-Shows :
    (name : String) (flag : Flag) (m : Manager) (view : View)
    → Shows m view
    → Shows (record m { flags = write name flag m.flags }) (set name (some flag) view)
unfolding get
write-Shows name flag m view h other =
    rw (read-write name other flag m.flags) (ground (arith, h other))

register-Shows :
    (flag : Flag) (m : Manager) (view : View) (o : Option Flag)
    → Shows m view
    → StepShows (register_absent flag m o) (view_register flag view o)
unfolding StepShows
register-Shows flag m view none h = (write-Shows flag.name flag m view h, refl)
register-Shows flag m view (some old) h = (h, refl)

switch-Shows :
    (name : String) (on : Bool) (m : Manager) (view : View) (o : Option Flag)
    → Shows m view
    → StepShows (switch_found name on m o) (view_switch name on view o)
unfolding StepShows
switch-Shows name on m view none h = (h, refl)
switch-Shows name on m view (some f) h =
    (write-Shows name (record f { enabled = on }) m view h, refl)

remove-Shows :
    (name : String) (m : Manager) (view : View) (o : Option Flag)
    → Shows m view
    → StepShows (remove_found name m o) (view_remove name view o)
unfolding StepShows get
remove-Shows name m view none h = (h, refl)
remove-Shows name m view (some f) h =
    (λ other. rw (read-delete name other m.flags) (ground (arith, h other)), refl)

step-Shows :
    (m : Manager) (view : View) (c : Call) → Shows m view → StepShows (step m c) (view_step view c)
unfolding step register register_or_update enable disable remove get StepShows
step-Shows m view (registers flag) h =
    rw (sym (h flag.name)) (register-Shows flag m view (read flag.name m.flags) h)
step-Shows m view (updates flag) h = (write-Shows flag.name flag m view h, refl)
step-Shows m view (enables name) h =
    rw (sym (h name)) (switch-Shows name true m view (read name m.flags) h)
step-Shows m view (disables name) h =
    rw (sym (h name)) (switch-Shows name false m view (read name m.flags) h)
step-Shows m view (removes name) h =
    rw (sym (h name)) (remove-Shows name m view (read name m.flags) h)

run-Shows :
    (m : Manager) (view : View) (cs : List Call)
    → Shows m view
    → Shows (run m cs).0 (view_run view cs).0 × ((run m cs).1 ≡ (view_run view cs).1)
unfolding run StepShows
run-Shows m view [] h = (h, refl)
run-Shows m view (c ∷ cs) h =
    let (shown, same) = step-Shows m view c h in
    let (last, answers) = run-Shows (step m c).0 (view_step view c).0 cs shown in
    (last, rw (same, answers) refl)

-- Any calls on a new manager find and answer what the same calls on a function from names to flags,
-- none at first, would.
pub run_flags-Shows :
    (cs : List Call)
    → ((name : String) → get name (run new_manager cs).0 ≡ (view_run (λ name. none) cs).0 name)
      × ((run new_manager cs).1 ≡ (view_run (λ name. none) cs).1)
unfolding get read
run_flags-Shows cs = run-Shows new_manager (λ name. none) cs (λ name. refl)

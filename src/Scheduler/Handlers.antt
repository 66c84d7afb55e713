-- ===== src/Scheduler/Handlers.antt =====
-- internal/services/scheduler/task.go: the handlers of the package by name. What a handler does is a
-- parameter, over a state of the world; it is given the payload and the deadline of its context.
use go_backend_core.Prelude.{ℕ, Option, List, String, map}
use go_backend_core.Prelude.Int.{ℤ}
use go_backend_core.Prelude.Equality.{string_eq}
use go_backend_core.Prelude.Dict.{Dict, read, write}

pub record TaskHandler (W : Type 0) : Type 0 where
  pub name : String
  pub execute : Option (List ℕ) → ℤ → W → W × Option String

module _ {W : Type 0} where
  unfoldable pub register_handler :
      TaskHandler W → Dict String (TaskHandler W) → Dict String (TaskHandler W)
  register_handler h handlers = write h.name h handlers

  unfoldable pub get_handler : String → Dict String (TaskHandler W) → Option (TaskHandler W)
  get_handler name handlers = read name handlers

  unfoldable pub list_handlers : Dict String (TaskHandler W) → List String
  list_handlers handlers = map (λ h. h.0) handlers

-- ===== src/Discovery/Registry/Tests.antt =====
-- The registry at concrete instances.
use go_backend_core.Prelude.{ℕ, ◌≡◌, refl, ◌↔◌, some, List, [], ◌∷◌, In, String, true, false, arith}
use go_backend_core.Prelude.Equality.{string_eq}
use go_backend_core.Prelude.Int.{pos}
use go_backend_core.Prelude.Dict.{read, write}
use go_backend_core.Discovery.Registry.{
  Instance, MemoryRegistry, new_memory_registry, discover, Call, registers, deregisters, renews,
  watches, renew, deregister, cancels, closes, register, watch, cancel, close, close_all,
  close_channels, notify_watchers, send_all, step, run,
}
use go_backend_core.Discovery.Registry.Watched.{run_registry_calm}
use go_backend_core.Discovery.Registry.Known.{known}
use go_backend_core.Discovery.Registry.Discovered.{run_registry-discovers}

abbrev api : Instance
api = record {
  id = "api-1";
  name = "api";
  address = "10.0.0.1";
  port = pos 80;
  tags = [];
  metadata = [];
  status = "down";
  last_seen = 0;
}

abbrev db : Instance
db = record api { id = "db-1"; name = "db" }

-- One instance is down, and is renewed; another is registered.
abbrev stocked : MemoryRegistry
stocked = record new_memory_registry { instances = ("api-1", api) ∷ ("db-1", db) ∷ [] }

abbrev calls : List (ℕ × Call)
calls = (1, watches "api") ∷ (2, renews "api-1") ∷ (3, deregisters "db-2") ∷ []

abbrev renewed_api : Instance
renewed_api = record api { status = "up"; last_seen = 2 }

discovered :
    (discover "api" (run calls stocked) ≡ renewed_api ∷ [])
    × (discover "db" (run calls stocked) ≡ [])
unfolding run step watch renew deregister discover read write
discovered = (refl, refl)

run_registry-discovers_example : In renewed_api (discover "api" (run calls stocked)) ↔ (
    (id : String) × (known calls (λ x. read x stocked.instances) id ≡ some renewed_api)
    × (renewed_api.name ≡ "api")
    × (renewed_api.status ≡ "up"))
run_registry-discovers_example =
    run_registry-discovers calls stocked "api" renewed_api
      ((ground (arith, string_eq.equals_iff "api-1" "db-1"), tt), (tt, tt))

run_registry_calm_example :
    (run
      ((1, watches "api") ∷ (2, registers api) ∷ (3, cancels 0) ∷ [])
      new_memory_registry).panicked
    ≡ false
unfolding step watch register notify_watchers send_all read write
run_registry_calm_example =
    run_registry_calm ((1, watches "api") ∷ (2, registers api) ∷ (3, cancels 0) ∷ [])
      (tt, (tt, (refl, tt)))

-- The goroutine of a watcher closes again what `Close` has closed.
closed_twice :
    (run ((1, watches "api") ∷ (2, closes) ∷ (3, cancels 0) ∷ []) new_memory_registry).panicked
    ≡ true
unfolding run step watch close close_all close_channels cancel read write
closed_twice = refl

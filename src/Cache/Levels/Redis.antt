-- ===== src/Cache/Levels/Redis.antt =====
-- What internal/services/cache/cache.go asks of Redis, over a state of the server.
use go_backend_core.Prelude.{ℕ, Bool, Option, List, String}
use go_backend_core.Prelude.Int.{ℤ}
use go_backend_core.Prelude.Result.{Result}
use go_backend_core.Cache.Codecs.{Bytes}

-- `none` in an answer is `redis.Nil`; a call that changes the state may also fail. `scan` gives the
-- keys of a pattern, with the error that ends the iteration.
pub record Client (R : Type 0) : Type 0 where
  pub get : String → R → Result String (Option Bytes)
  pub mget : List String → R → Result String (List (Option Bytes))
  pub exists : String → R → Result String ℕ
  pub scan : String → R → List String × Option String
  pub set : String → Bytes → ℤ → R → R × Option String
  pub mset : List (String × Bytes) → R → R × Option String
  pub set_nx : String → ℤ → R → R × Result String Bool
  pub del : String → R → R × Option String
  pub publish : String → String → R → R × Option String

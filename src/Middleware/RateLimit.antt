-- ===== src/Middleware/RateLimit.antt =====
-- internal/middleware/ratelimit.go: the rate limiter in memory. An instant is the number of
-- nanoseconds since the epoch.
pub mod Window
pub mod Limit
mod Tests
use go_backend_core.Prelude.{
  ℕ, suc, ◌+◌, Bool, true, false, Option, none, some, List, [], ◌∷◌, ◌++◌, String, length, keep,
  if◌then◌else◌,
}
use go_backend_core.Prelude.Int.{ℤ, pos, sub_ℕ, ltb_ℤ, leb_ℤ}
use go_backend_core.Prelude.Dict.{Dict, read, write, delete}
use go_backend_core.Prelude.Equality.{string_eq}

pub record RateLimit : Type 0 where
  pub requests : Dict String (List ℕ)
  pub max_requests : ℤ
  pub window : ℤ

-- For a window that is not positive the ticker of the goroutine that is started here panics, which
-- is not modelled.
unfoldable pub new_rate_limit : ℤ → ℤ → RateLimit
new_rate_limit max_requests window = record {
  requests = [];
  max_requests = max_requests;
  window = window;
}

-- `now.Sub(t) < rl.window`.
abbrev pub is_recent : ℤ → ℕ → ℕ → Bool
is_recent window now t = ltb_ℤ (sub_ℕ now t) window

abbrev pub valid : ℤ → ℕ → List ℕ → List ℕ
valid window now times = keep (is_recent window now) times

-- Go reads a missing key as an empty list.
abbrev pub or_empty : Option (List ℕ) → List ℕ
or_empty none = []
or_empty (some times) = times

abbrev pub times_of : String → Dict String (List ℕ) → List ℕ
times_of ip m = or_empty (read ip m)

unfoldable pub allow : RateLimit → String → ℕ → RateLimit × Bool
allow rl ip now =
    let recent = valid rl.window now (times_of ip rl.requests) in
    if leb_ℤ rl.max_requests (pos (length recent))
    then (record rl { requests = write ip recent rl.requests }, false)
    else (record rl { requests = write ip (recent ++ now ∷ []) rl.requests }, true)

store_valid : String → List ℕ → Dict String (List ℕ) → Dict String (List ℕ)
store_valid ip [] m = delete ip m
store_valid ip (t ∷ ts) m = write ip (t ∷ ts) m

-- One round of the loop in `cleanup`, for the key `ip`.
clean_key : ℤ → ℕ → String → Dict String (List ℕ) → Dict String (List ℕ)
unfolding store_valid
clean_key window now ip m = store_valid ip (valid window now (times_of ip m)) m

clean_entries : ℤ → ℕ → Dict String (List ℕ) → Dict String (List ℕ) → Dict String (List ℕ)
unfolding clean_key
clean_entries window now [] m = m
clean_entries window now ((ip, times) ∷ rest) m =
    clean_entries window now rest (clean_key window now ip m)

-- One tick of `cleanup`: the loop over the map's keys.
unfoldable pub cleanup : RateLimit → ℕ → RateLimit
unfolding clean_entries
cleanup rl now = record rl { requests = clean_entries rl.window now rl.requests rl.requests }

pub data Event : Type 0 where
  request : String → Event
  tick : Event

unfoldable pub run : RateLimit → List (ℕ × Event) → RateLimit × List Bool
run rl [] = (rl, [])
run rl ((now, request ip) ∷ es) =
    let (rl', ok) = allow rl ip now in let (last, answers) = run rl' es in (last, ok ∷ answers)
run rl ((now, tick) ∷ es) = run (cleanup rl now) es

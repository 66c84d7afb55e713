-- ===== src/Auth/Blacklist.antt =====
-- internal/services/auth/blacklist.go: the revoked tokens in memory. Each method is one step; an
-- instant is the number of nanoseconds since the epoch.
pub mod Revoked
mod Tests
use go_backend_core.Prelude.{
  ℕ, Bool, true, false, Option, none, some, List, [], ◌∷◌, String, ltb, if◌then◌else◌,
}
use go_backend_core.Prelude.Equality.{string_eq}
use go_backend_core.Prelude.Dict.{Dict, read, write, delete}

pub record Blacklist : Type 0 where
  pub entries : Dict String ℕ

abbrev pub new_blacklist : Blacklist
new_blacklist = record { entries = [] }

unfoldable pub revoke : String → ℕ → Blacklist → Blacklist
revoke jti exp b = record b { entries = write jti exp b.entries }

abbrev pub answer : String → ℕ → Blacklist → Option ℕ → Blacklist × Bool
answer jti now b none = (b, false)
answer jti now b (some exp) =
    if ltb exp now then (record b { entries = delete jti b.entries }, false) else (b, true)

-- An expired entry is removed by the question.
unfoldable pub is_revoked : String → ℕ → Blacklist → Blacklist × Bool
is_revoked jti now b = answer jti now b (read jti b.entries)

pub data Call : Type 0 where
  revokes : String → ℕ → Call
  asks : String → Call

-- Calls at their instants, with the answers to the questions in order.
unfoldable pub run : Blacklist → List (ℕ × Call) → Blacklist × List Bool
run b [] = (b, [])
run b ((now, revokes jti exp) ∷ cs) = run (revoke jti exp b) cs
run b ((now, asks jti) ∷ cs) =
    let (b', revoked) = is_revoked jti now b in
    let (last, answers) = run b' cs in (last, revoked ∷ answers)

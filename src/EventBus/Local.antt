-- ===== src/EventBus/Local.antt =====
-- internal/services/eventbus/eventbus.go: the local bus, with its patterns of topics. A handler is a
-- parameter over a world, and does not call the bus itself, whose lock the publisher holds. The id
-- "sub_%d" is kept as the 64 bits of its number; the timestamp 0 stands for the zero time. Go visits the topics of
-- the map in any order, the model in the order of the entries. `PublishAsync` is `Publish` later.
pub mod Topics
pub mod Live
mod Tests
use go_backend_core.Prelude.{
  ℕ, ◌+◌, ◌%◌, ◌^◌, ◌||◌, Bool, true, false, Option, none, some, List, [], ◌∷◌, ◌++◌, String,
  if◌then◌else◌, nat_beq,
}
use go_backend_core.Prelude.Int.{ℤ, pos, ◌+ℤ◌, wrap64}
use go_backend_core.Prelude.Equality.{◌==◌, nat_eq, string_eq}
use go_backend_core.Prelude.Dict.{Dict, read, write}
use go_backend_core.Prelude.Result.{Result, ok, err}
use go_backend_core.EventBus.DeadLetter.{Event}
use Prim.Native.Char.{Char, code}
use Prim.Native.String
use text.Mathlib.Text.{starts_with}

pub record Subscription (Handler : Type 0) : Type 0 where
  pub id : ℕ
  pub topic : String
  pub handler : Handler

pub record LocalBus (Handler : Type 0) : Type 0 where
  pub subs : Dict String (List (Subscription Handler))
  pub sub_counter : ℕ

abbrev prepend : Char → Option String → Option String
prepend c none = none
prepend c (some s) = some (String.◌∷◌ c s)

-- A text without its last character, which is the star.
abbrev pub cut_star : Char → String → Option String
cut_star c String.[] = if nat_beq (code c) b'*' then some "" else none
cut_star c (String.◌∷◌ d s) = prepend c (cut_star d s)

-- `strings.HasSuffix(pattern, "*")`, and then `strings.TrimSuffix(pattern, "*")`.
abbrev pub trim_star : String → Option String
trim_star String.[] = none
trim_star (String.◌∷◌ c s) = cut_star c s

abbrev pub has_prefix : String → Option String → Bool
has_prefix topic none = false
has_prefix topic (some prefix) = starts_with topic prefix

unfoldable pub match_topic : String → String → Bool
match_topic pattern topic = pattern == topic || has_prefix topic (trim_star pattern)

module _ {Handler : Type 0} where
  abbrev pub new_local : LocalBus Handler
  new_local = record { subs = []; sub_counter = 0 }

  abbrev pub or_none : Option (List (Subscription Handler)) → List (Subscription Handler)
  or_none none = []
  or_none (some subs) = subs

  unfoldable pub subscribe :
      String → Handler → LocalBus Handler → LocalBus Handler × Subscription Handler
  subscribe topic handler b =
      let counter = (b.sub_counter + 1) % 2 ^ 64 in
      let sub : Subscription Handler = record { id = counter; topic = topic; handler = handler } in
      (
        record {
          subs = write topic (or_none (read topic b.subs) ++ sub ∷ []) b.subs;
          sub_counter = counter;
        },
        sub,
      )

  -- The loop of `Unsubscribe`, with whether the id was there.
  unfoldable pub remove_sub : ℕ → List (Subscription Handler) → List (Subscription Handler) × Bool
  remove_sub id [] = ([], false)
  remove_sub id (s ∷ subs) =
      let (rest, found) = remove_sub id subs in
      if s.id == id then (subs, true) else (s ∷ rest, found)

  -- `none` is the error that the subscription was not found.
  unfoldable pub unsubscribe :
      Subscription Handler → LocalBus Handler → LocalBus Handler × Option (Unit {0})
  unsubscribe sub b =
      let (rest, found) = remove_sub sub.id (or_none (read sub.topic b.subs)) in
      if found then (record b { subs = write sub.topic rest b.subs }, some tt) else (b, none)

  -- The subscriptions that the first loops of `Publish` collect.
  unfoldable pub receivers :
      String → Dict String (List (Subscription Handler)) → List (Subscription Handler)
  receivers topic [] = []
  receivers topic ((pattern, subs) ∷ rest) =
      if match_topic pattern topic then subs ++ receivers topic rest else receivers topic rest

module _ {P W : Type 0} where
  -- The second loop of `Publish`: the first error ends it.
  unfoldable pub call_all :
      List (Subscription (Event P → W → W × Option String)) → Event P → W → W × Option String
  call_all [] event w = (w, none)
  call_all (s ∷ subs) event w =
      let (w', e) = s.handler event w in
      elim e [ some why ↦ (w', some why) | none ↦ call_all subs event w' ]

  unfoldable pub publish :
      String → Event P → ℕ → LocalBus (Event P → W → W × Option String) → W → W × Option String
  publish topic event now b w =
      call_all (receivers topic b.subs)
        (record event {
          topic = topic;
          timestamp = if event.timestamp == 0 then now else event.timestamp;
        })
        w

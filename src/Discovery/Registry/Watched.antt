-- ===== src/Discovery/Registry/Watched.antt =====
-- A watcher of internal/services/discovery/discovery.go that is cancelled leaves no trace, and the run
-- of a registry never panics before `Close`.
use go_backend_core.Prelude.{
  ℕ, ◌≡◌, refl, ap, subst, ◌∙◌, ◌≢◌, inl, inr, true, false, Option, none, some, List, [], ◌∷◌,
  String, All, In, Bool-cases, arith,
}
use go_backend_core.Prelude.Equality.{◌==◌, nat_eq, string_eq}
use go_backend_core.Prelude.Dict.{read, read-write}
use go_backend_core.Prelude.Search.{Distinct}
use go_backend_core.Discovery.Registry.{
  MemoryRegistry, new_memory_registry, or_none, register, put, unwatch, close_channel,
  without_channel, deregister, renew, cancel, Call, registers, deregisters, renews, watches,
  cancels, closes, step, run,
}
use go_backend_core.Discovery.Registry.Channels.{
  watching, IsSound, notify-IsSound, moved-IsSound, deregister_found-IsSound, renew_found-IsSound,
}
use go_backend_core.Discovery.Registry.Added.{put-IsOpen, watch-IsSound}

All-without : (P : ℕ → Type 0) (ch : ℕ) (ws : List ℕ) → All P ws → All P (without_channel ch ws)
unfolding without_channel
All-without P ch [] h = tt
All-without P ch (w ∷ ws) (h, hs) = elim (Bool-cases (w == ch)) [
  | inl hit ↦ rw hit hs
  | inr miss ↦ rw miss (h, All-without P ch ws hs)
]

Distinct-without :
    (ch : ℕ) (ws : List ℕ) → Distinct (λ (n : ℕ). n) ws → Distinct (λ n. n) (without_channel ch ws)
unfolding without_channel
Distinct-without ch [] d = tt
Distinct-without ch (w ∷ ws) (a, d) = elim (Bool-cases (w == ch)) [
  | inl hit ↦ rw hit d
  | inr miss ↦ rw miss (All-without (λ y. y ≢ w) ch ws a, Distinct-without ch ws d)
]

ne-In : (b x : ℕ) (xs : List ℕ) → All (λ y. y ≢ b) xs → In x xs → x ≢ b
ne-In b x [] h there = elim there [ ]
ne-In b x (y ∷ xs) (h, hs) (inl e) = rw (← e) h
ne-In b x (y ∷ xs) (h, hs) (inr there) = ne-In b x xs hs there

-- The first that is the channel is the only one.
In-without :
    (ch x : ℕ) (ws : List ℕ)
    → Distinct (λ (n : ℕ). n) ws
    → In x (without_channel ch ws)
    → In x ws × (x ≢ ch)
unfolding without_channel
In-without ch x [] d there = elim there [ ]
In-without ch x (w ∷ ws) (a, d) there = elim (Bool-cases (w == ch)) [
  | inl hit ↦
      let is : w ≡ ch = (nat_eq.equals_iff w ch).0 hit in
      let old : In x ws = rw hit at there in (inr old, rw (← is) (ne-In w x ws a old))
  | inr miss ↦
      let kept : In x (w ∷ without_channel ch ws) = rw miss at there in
      elim kept [
        | inl e ↦ (inl e, λ same. let other = nat_eq.equals_iff w ch in ground arith)
        | inr later ↦ let (old, differ) = In-without ch x ws d later in (inr old, differ)
      ]
]

-- Without the channel in the list of its service, no list has it.
record Unwatched (ch : ℕ) (r r' : MemoryRegistry) : Type 0 where
  gone : (name : String) (x : ℕ) → In x (watching name r') → In x (watching name r) × (x ≢ ch)
  still_once : (name : String) → Distinct (λ (n : ℕ). n) (watching name r')
  channels_same : r'.channels ≡ r.channels
  next_same : r'.next ≡ r.next
  panicked_same : r'.panicked ≡ r.panicked

unwatch-Unwatched :
    (ch : ℕ) (r : MemoryRegistry) (found : Option (List ℕ))
    → read (r.channels ch).name r.watchers ≡ found
    → IsSound r
    → Unwatched ch r (unwatch (r.channels ch).name ch r found)
unwatch-Unwatched ch r none e v = record {
  gone = λ name x there. (
    there,
    λ same.
        let named : (r.channels ch).name ≡ name =
          subst (λ c. (r.channels c).name ≡ name) same (v.opened name x there).named in
        let nowhere : In x (or_none none) = subst (λ o. In x (or_none o)) e (rw named there) in
        nowhere,
  );
  still_once = v.once;
  channels_same = refl;
  next_same = refl;
  panicked_same = refl;
}
unwatch-Unwatched ch r (some ws) e v =
    let here = (r.channels ch).name in
    let distinct : Distinct (λ (n : ℕ). n) ws =
      subst (λ o. Distinct (λ (n : ℕ). n) (or_none o)) e (v.once here) in
    record {
      gone = λ name x there. elim (Bool-cases (here == name)) [
        | inl hit ↦
            let is : here ≡ name = (string_eq.equals_iff here name).0 hit in
            let (old, differ) = In-without ch x ws distinct (rw (read-write, hit) at there) in
            (rw (← is, e) old, differ)
        | inr miss ↦
            let old : In x (watching name r) = rw (read-write, miss) at there in
            (
              old,
              λ same.
                  let named : here ≡ name =
                    subst (λ c. (r.channels c).name ≡ name) same (v.opened name x old).named in
                  ground (arith, string_eq.equals_iff here name),
            )
      ];
      still_once = λ name. elim (Bool-cases (here == name)) [
        | inl hit ↦ rw (read-write, hit) (Distinct-without ch ws distinct)
        | inr miss ↦ rw (read-write, miss) (v.once name)
      ];
      channels_same = refl;
      next_same = refl;
      panicked_same = refl;
    }

cancel-IsSound :
    (ch : ℕ) (r : MemoryRegistry)
    → (r.channels ch).closed ≡ false
    → IsSound r
    → IsSound (cancel ch r)
unfolding cancel
cancel-IsSound ch r opened v =
    let r1 = unwatch (r.channels ch).name ch r (read (r.channels ch).name r.watchers) in
    let u = unwatch-Unwatched ch r (read (r.channels ch).name r.watchers) refl v in
    record {
      opened = λ name x there.
          let (old, differ) = u.gone name x there in
          put-IsOpen name ch x r.next _ r (close_channel ch r1)
            (ap (λ f. put ch (record (r1.channels ch) { closed = true }) f) u.channels_same)
            u.next_same (omega arith) differ (v.opened name x old);
      once = u.still_once;
      calm =
          let closed1 : (r1.channels ch).closed ≡ false =
            ap (λ f. (f ch).closed) u.channels_same ∙ opened in
          let panicked1 : r1.panicked ≡ false = u.panicked_same ∙ v.calm in
          rw (closed1, panicked1) refl;
    }

-- A channel is cancelled at most once, and the registry is not closed.
abbrev pub IsAllowed : Call → MemoryRegistry → Type 0
IsAllowed (registers inst) r = Unit
IsAllowed (deregisters id) r = Unit
IsAllowed (renews id) r = Unit
IsAllowed (watches name) r = Unit
IsAllowed (cancels ch) r = (r.channels ch).closed ≡ false
IsAllowed closes r = ⊥

abbrev pub AreAllowed : List (ℕ × Call) → MemoryRegistry → Type 0
AreAllowed [] r = Unit
AreAllowed ((now, call) ∷ calls) r = IsAllowed call r × AreAllowed calls (step now call r)

step-IsSound :
    (now : ℕ) (call : Call) (r : MemoryRegistry)
    → IsAllowed call r
    → IsSound r
    → IsSound (step now call r)
unfolding step register deregister renew
step-IsSound now (registers inst) r allowed v = notify-IsSound inst.name _ (moved-IsSound _ r v)
step-IsSound now (deregisters id) r allowed v =
    deregister_found-IsSound id r (read id r.instances) v
step-IsSound now (renews id) r allowed v = renew_found-IsSound id now r (read id r.instances) v
step-IsSound now (watches name) r allowed v = watch-IsSound name r v
step-IsSound now (cancels ch) r allowed v = cancel-IsSound ch r allowed v
step-IsSound now closes r allowed v = absurd allowed

run-IsSound :
    (calls : List (ℕ × Call)) (r : MemoryRegistry)
    → AreAllowed calls r
    → IsSound r
    → IsSound (run calls r)
unfolding run
run-IsSound [] r allowed v = v
run-IsSound ((now, call) ∷ calls) r (a, rest) v =
    run-IsSound calls (step now call r) rest (step-IsSound now call r a v)

new-IsSound : IsSound new_memory_registry
unfolding read
new-IsSound = record { opened = λ name ch there. elim there [ ]; once = λ name. tt; calm = refl }

-- However a new registry is used before `Close`, with instances that come and go while watchers are
-- added and cancelled, each at most once, no snapshot is sent to a closed channel and no channel is
-- closed twice: nothing panics.
pub run_registry_calm :
    (calls : List (ℕ × Call))
    → AreAllowed calls new_memory_registry
    → (run calls new_memory_registry).panicked ≡ false
run_registry_calm calls allowed = (run-IsSound calls new_memory_registry allowed new-IsSound).calm

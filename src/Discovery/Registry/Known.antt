-- ===== src/Discovery/Registry/Known.antt =====
-- The registry of internal/services/discovery/discovery.go against a function from ids to instances,
-- which no channel, no watcher and no order of entries is part of.
use go_backend_core.Prelude.{
  ℕ, ◌≡◌, refl, ◌∙◌, Option, none, some, List, [], ◌∷◌, String, Bool-cases, inl, inr, ltb, length,
  if◌then◌else◌,
}
use go_backend_core.Prelude.Equality.{◌==◌, string_eq}
use go_backend_core.Prelude.Dict.{read, write, delete, read-write, read-delete}
use go_backend_core.Prelude.Entries.{IsMap, write-IsMap, delete-IsMap}
use go_backend_core.Discovery.Registry.{
  Instance, MemoryRegistry, snapshot, send, send_all, notify_watchers, or_none, register, unwatch,
  deregister, deregister_found, renew, renew_found, watch, cancel, close, Call, registers,
  deregisters, renews, watches, cancels, closes, step, run,
}

abbrev seen : ℕ → Instance → Instance
seen now inst = record inst { status = "up"; last_seen = now }

abbrev renewed : ℕ → Option Instance → Option Instance
renewed now none = none
renewed now (some inst) = some (seen now inst)

-- What a call makes of the instances that are known by their ids.
abbrev known_after : ℕ → Call → (String → Option Instance) → String → Option Instance
known_after now (registers inst) before id =
    if inst.id == id then some (seen now inst) else before id
known_after now (deregisters gone) before id = if gone == id then none else before id
known_after now (renews same) before id = if same == id then renewed now (before id) else before id
known_after now (watches name) before id = before id
known_after now (cancels ch) before id = before id
known_after now closes before id = none

abbrev pub known : List (ℕ × Call) → (String → Option Instance) → String → Option Instance
known [] before = before
known ((now, call) ∷ calls) before = known calls (known_after now call before)

send_instances :
    (sent : List Instance) (ch : ℕ) (r : MemoryRegistry) → (send sent ch r).instances ≡ r.instances
send_instances sent ch r = elim (Bool-cases (r.channels ch).closed) [
  | inl closed ↦ rw closed refl
  | inr open_ ↦ elim (Bool-cases (ltb (length (r.channels ch).held) 16)) [
    | inl room ↦ rw (open_, room) refl
    | inr full ↦ rw (open_, full) refl
  ]
]

send_all_instances :
    (sent : List Instance) (chs : List ℕ) (r : MemoryRegistry)
    → (send_all sent chs r).instances ≡ r.instances
unfolding send_all
send_all_instances sent [] r = refl
send_all_instances sent (ch ∷ chs) r =
    send_all_instances sent chs (send sent ch r) ∙ send_instances sent ch r

notify_instances :
    (name : String) (r : MemoryRegistry) → (notify_watchers name r).instances ≡ r.instances
unfolding notify_watchers
notify_instances name r = send_all_instances (snapshot name r) (or_none (read name r.watchers)) r

unwatch_instances :
    (name : String) (ch : ℕ) (r : MemoryRegistry) (found : Option (List ℕ))
    → (unwatch name ch r found).instances ≡ r.instances
unwatch_instances name ch r none = refl
unwatch_instances name ch r (some ws) = refl

cancel_instances : (ch : ℕ) (r : MemoryRegistry) → (cancel ch r).instances ≡ r.instances
unfolding cancel
cancel_instances ch r =
    let name = (r.channels ch).name in unwatch_instances name ch r (read name r.watchers)

-- One call on the instances alone.
abbrev Follows : ℕ → Call → MemoryRegistry → MemoryRegistry → Type 0
Follows now call r r' =
    IsMap r'.instances
    × ((id : String) → read id r'.instances ≡ known_after now call (λ x. read x r.instances) id)

deregister_found-Follows :
    (now : ℕ) (gone : String) (r : MemoryRegistry) (found : Option Instance)
    → read gone r.instances ≡ found
    → IsMap r.instances
    → Follows now (deregisters gone) r (deregister_found gone r found).0
deregister_found-Follows now gone r none missing once = (
  once,
  λ id. elim (Bool-cases (gone == id)) [
    | inl same ↦
        let is : gone ≡ id = (string_eq.equals_iff gone id).0 same in rw same (rw is at missing)
    | inr other ↦ rw other refl
  ],
)
deregister_found-Follows now gone r (some inst) found once =
    rw (notify_instances inst.name (record r { instances = delete gone r.instances }))
      (delete-IsMap gone r.instances once, λ id. read-delete gone id r.instances)

renew_found-Follows :
    (now : ℕ) (same : String) (r : MemoryRegistry) (found : Option Instance)
    → read same r.instances ≡ found
    → IsMap r.instances
    → Follows now (renews same) r (renew_found same now r found).0
renew_found-Follows now same r none missing once = (
  once,
  λ id. elim (Bool-cases (same == id)) [
    | inl hit ↦
        let is : same ≡ id = (string_eq.equals_iff same id).0 hit in
        let absent : read id r.instances ≡ none = rw is at missing in rw (hit, absent) refl
    | inr other ↦ rw other refl
  ],
)
renew_found-Follows now same r (some inst) found once = (
  write-IsMap same (seen now inst) r.instances once,
  λ id. elim (Bool-cases (same == id)) [
    | inl hit ↦
        let is : same ≡ id = (string_eq.equals_iff same id).0 hit in
        let there : read id r.instances ≡ some inst = rw is at found in
        rw (read-write same id (seen now inst) r.instances, hit, there) refl
    | inr other ↦ rw (read-write same id (seen now inst) r.instances, other) refl
  ],
)

step-Follows :
    (now : ℕ) (call : Call) (r : MemoryRegistry)
    → IsMap r.instances
    → Follows now call r (step now call r)
unfolding step register deregister renew watch close read
step-Follows now (registers inst) r once =
    let m = write inst.id (seen now inst) r.instances in
    rw (notify_instances inst.name (record r { instances = m })) (
      write-IsMap inst.id (seen now inst) r.instances once,
      λ id. read-write inst.id id (seen now inst) r.instances,
    )
step-Follows now (deregisters gone) r once =
    deregister_found-Follows now gone r (read gone r.instances) refl once
step-Follows now (renews same) r once =
    renew_found-Follows now same r (read same r.instances) refl once
step-Follows now (watches name) r once = (once, λ id. refl)
step-Follows now (cancels ch) r once = rw cancel_instances (once, λ id. refl)
step-Follows now closes r once = (tt, λ id. refl)

-- Calls see no more than what an id is known for.
known_after-agree :
    (now : ℕ) (call : Call) (f g : String → Option Instance)
    → ((id : String) → f id ≡ g id)
    → (id : String) → known_after now call f id ≡ known_after now call g id
known_after-agree now (registers inst) f g same id = rw (same id) refl
known_after-agree now (deregisters gone) f g same id = rw (same id) refl
known_after-agree now (renews name) f g same id = rw (same id) refl
known_after-agree now (watches name) f g same id = same id
known_after-agree now (cancels ch) f g same id = same id
known_after-agree now closes f g same id = refl

pub run-Follows :
    (calls : List (ℕ × Call)) (r : MemoryRegistry) (before : String → Option Instance)
    → IsMap r.instances
    → ((id : String) → read id r.instances ≡ before id)
    → IsMap (run calls r).instances
      × ((id : String) → read id (run calls r).instances ≡ known calls before id)
unfolding run
run-Follows [] r before once same = (once, same)
run-Follows ((now, call) ∷ calls) r before once same =
    let (once', follows) = step-Follows now call r once in
    run-Follows calls (step now call r) (known_after now call before) once'
      (λ id. follows id ∙ known_after-agree now call (λ x. read x r.instances) before same id)

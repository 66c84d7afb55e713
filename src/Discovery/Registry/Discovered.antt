-- ===== src/Discovery/Registry/Discovered.antt =====
-- What `Discover` of internal/services/discovery/discovery.go answers after any calls.
use go_backend_core.Prelude.{
  ℕ, ◌≡◌, refl, ap, sym, ◌∙◌, ◌↔◌, ◌&&◌, Bool, true, false, some, List, [], ◌∷◌, String, In, keep,
  Bool-cases, inl, inr, arith,
}
use go_backend_core.Prelude.Equality.{◌==◌, string_eq}
use go_backend_core.Prelude.Dict.{Dict, read}
use go_backend_core.Prelude.Entries.{IsMap, read-In}
use go_backend_core.Discovery.Registry.{Instance, MemoryRegistry, values, discover, Call, run}
use go_backend_core.Discovery.Registry.Known.{known, run-Follows}

keep-In :
    {A : Type 0} (p : A → Bool) (x : A) (xs : List A) → In x (keep p xs) ↔ ((p x ≡ true) × In x xs)
keep-In p x [] = ((λ i. elim i [ ]), (λ h. elim h.1 [ ]))
keep-In p x (y ∷ xs) =
    let (to, from) = keep-In p x xs in
    elim (Bool-cases (p y)) [
      | inl hit ↦ rw hit (
        (λ i. elim i [
          | inl here ↦ (rw here at hit, inl here)
          | inr there ↦ ((to there).0, inr (to there).1)
        ]),
        (λ h. elim h.1 [ inl here ↦ inl here | inr there ↦ inr (from (h.0, there)) ]),
      )
      | inr miss ↦ rw miss (
        (λ i. ((to i).0, inr (to i).1)),
        (λ h. elim h.1 [
          | inl here ↦ let fails : p x ≡ false = rw here at miss in absurd (ground arith)
          | inr there ↦ from (h.0, there)
        ]),
      )
    ]

values_entry :
    (inst : Instance) (m : Dict String Instance)
    → In inst (values m)
    → (id : String) × In (id, inst) m
values_entry inst [] i = elim i [ ]
values_entry inst ((k, v) ∷ m) (inl here) = (k, inl (ap (λ x. (k, x)) here))
values_entry inst ((k, v) ∷ m) (inr there) =
    let (id, found) = values_entry inst m there in (id, inr found)

read_value :
    (id : String) (inst : Instance) (m : Dict String Instance)
    → read id m ≡ some inst
    → In inst (values m)
unfolding read
read_value id inst [] h = cc
read_value id inst ((k, v) ∷ m) h = elim (Bool-cases (k == id)) [
  | inl same ↦ let found : v ≡ inst = ground (arith, same) in inl found
  | inr other ↦ inr (read_value id inst m (rw other at h))
]

-- Starting from any registry whose entries have distinct ids, whatever the statuses in it, and after
-- any calls, `Discover` answers with an instance exactly when it has the name that is asked for, is
-- up, and is what the calls leave known of some id: registered and renewed instances are up from
-- then on, deregistered ones and all that were there when the registry is closed are gone, and
-- nothing else changes what is known, the passing of time included.
pub run_registry-discovers :
    (calls : List (ℕ × Call)) (r : MemoryRegistry) (name : String) (inst : Instance)
    → IsMap r.instances
    → In inst (discover name (run calls r)) ↔ (
        (id : String) × (known calls (λ x. read x r.instances) id ≡ some inst)
        × (inst.name ≡ name)
        × (inst.status ≡ "up"))
unfolding discover
run_registry-discovers calls r name inst once =
    let (once', follows) = run-Follows calls r (λ x. read x r.instances) once (λ id. refl) in
    let m = (run calls r).instances in
    let test : Instance → Bool = λ x. x.name == name && x.status == "up" in
    let (to, from) = keep-In test inst (values m) in
    (
      (λ i.
          let (passed, there) = to i in
          let (id, entry) = values_entry inst m there in
          (
            id,
            sym (follows id) ∙ read-In id inst m once' entry,
            ground (arith, string_eq.equals_iff inst.name name),
            ground
                (arith, string_eq.equals_iff inst.name name, string_eq.equals_iff inst.status "up"),
          )),
      (λ (id, stands, named, up).
          let there = read_value id inst m (follows id ∙ stands) in
          from (
            ground
                (arith, string_eq.equals_iff inst.name name, string_eq.equals_iff inst.status "up"),
            there,
          )),
    )

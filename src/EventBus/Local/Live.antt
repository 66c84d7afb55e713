-- ===== src/EventBus/Local/Live.antt =====
-- Which subscriptions `Publish` of internal/services/eventbus/eventbus.go collects for an event.
use go_backend_core.Prelude.{
  ℕ, ◌+◌, ◌%◌, ◌^◌, ◌≤◌, ◌<◌, ◌≡◌, refl, ap, sym, ◌∙◌, ◌↔◌, ◌⊎◌, inl, inr, Bool, true, false,
  Option, some, List, [], ◌∷◌, ◌++◌, String, arith, All, In, Bool-cases,
}
use go_backend_core.Prelude.Equality.{◌==◌, nat_eq, string_eq, equals_refl}
use go_backend_core.Prelude.Dict.{Dict, read, write, read-write_self}
use go_backend_core.EventBus.Local.{
  Subscription, LocalBus, subscribe, unsubscribe, remove_sub, receivers, match_topic, or_none,
}

-- A test that fails adds nothing, and one that passes adds what it guards.
unguarded : {P Q : Type 0} {b : Bool} → b ≡ false → P ↔ (P ⊎ (Q × (b ≡ true)))
unguarded fails =
    (λ h. inl h, λ h. elim h [ inl p ↦ p | inr guard ↦ let (q, passes) = guard in absurd (cc) ])

guarded : {O P Q : Type 0} {b : Bool} → b ≡ true → O ↔ (P ⊎ Q) → O ↔ (P ⊎ (Q × (b ≡ true)))
guarded passes iff = (
  λ h. elim (iff.0 h) [ inl p ↦ inl p | inr q ↦ inr (q, passes) ],
  λ h. elim h [ inl p ↦ iff.1 (inl p) | inr guard ↦ iff.1 (inr guard.0) ],
)

module _ {Handler : Type 0} where
  -- Taking out the last subscription by its id, when the others have smaller ones.
  remove_sub_last :
      (n : ℕ) (subs : List (Subscription Handler)) (sub : Subscription Handler)
      → All (λ s. s.id ≤ n) subs
      → sub.id ≡ n + 1
      → remove_sub sub.id (subs ++ sub ∷ []) ≡ (subs, true)
  unfolding remove_sub
  remove_sub_last n [] sub h is =
      let same : (sub.id == sub.id) ≡ true = equals_refl sub.id in rw same refl
  remove_sub_last n (s ∷ subs) sub (h, hs) is =
      let other : (s.id == sub.id) ≡ false = ground (arith, nat_eq.equals_iff s.id sub.id) in
      rw (other, remove_sub_last n subs sub hs is) refl

  -- Collected is what is under the topics that match; writing a topic twice is writing it once.
  receivers-write_back :
      (topic t : String) (new : List (Subscription Handler))
      (m : Dict String (List (Subscription Handler)))
      → receivers topic (write t (or_none (read t m)) (write t new m)) ≡ receivers topic m
  unfolding receivers read write
  receivers-write_back topic t new [] =
      let same : (t == t) ≡ true = equals_refl t in
      elim (Bool-cases (match_topic t topic)) [
        | inl hit ↦ rw (same, hit) refl
        | inr miss ↦ rw (same, miss) refl
      ]
  receivers-write_back topic t new ((k, subs) ∷ m) = elim (Bool-cases (k == t)) [
    | inl same ↦ rw same (rw same refl)
    | inr other ↦ rw other (rw other (rw (receivers-write_back topic t new m) refl))
  ]

  unsubscribe_found :
      (sub : Subscription Handler) (b : LocalBus Handler) (rest : List (Subscription Handler))
      → remove_sub sub.id (or_none (read sub.topic b.subs)) ≡ (rest, true)
      → unsubscribe sub b ≡ (record b { subs = write sub.topic rest b.subs }, some tt)
  unfolding unsubscribe
  unsubscribe_found sub b rest h = rw h refl

  In-inserted :
      (x y : Subscription Handler) (xs ys : List (Subscription Handler))
      → In x ((xs ++ y ∷ []) ++ ys) ↔ (In x (xs ++ ys) ⊎ (x ≡ y))
  In-inserted x y [] ys = (
    λ h. elim h [ inl e ↦ inr (sym e) | inr there ↦ inl there ],
    λ h. elim h [ inl there ↦ inr there | inr e ↦ inl (sym e) ],
  )
  In-inserted x y (z ∷ xs) ys =
      let (there, back) = In-inserted x y xs ys in
      (
        λ h. elim h [
          | inl e ↦ inl (inl e)
          | inr m ↦ elim (there m) [ inl a ↦ inl (inr a) | inr e ↦ inr e ]
        ],
        λ h. elim h [
          | inl a ↦ elim a [ inl e ↦ inl e | inr m ↦ inr (back (inl m)) ]
          | inr e ↦ inr (back (inr e))
        ],
      )

  -- What is added after a list is added to the list with it in front.
  In-behind :
      {Q : Type 0} (x : Subscription Handler) (xs ys zs : List (Subscription Handler))
      → In x ys ↔ (In x zs ⊎ Q)
      → In x (xs ++ ys) ↔ (In x (xs ++ zs) ⊎ Q)
  In-behind x [] ys zs iff = iff
  In-behind x (z ∷ xs) ys zs iff =
      let (there, back) = In-behind x xs ys zs iff in
      (
        λ h. elim h [
          | inl e ↦ inl (inl e)
          | inr m ↦ elim (there m) [ inl a ↦ inl (inr a) | inr q ↦ inr q ]
        ],
        λ h. elim h [
          | inl a ↦ elim a [ inl e ↦ inl e | inr m ↦ inr (back (inl m)) ]
          | inr q ↦ inr (back (inr q))
        ],
      )

  -- One more subscription under a topic is collected with the others, if the topic matches.
  receivers-added :
      (topic t : String) (x sub : Subscription Handler) (old : List (Subscription Handler))
      (m : Dict String (List (Subscription Handler)))
      → or_none (read t m) ≡ old
      → In x (receivers topic (write t (old ++ sub ∷ []) m))
        ↔ (In x (receivers topic m) ⊎ ((x ≡ sub) × (match_topic t topic ≡ true)))
  unfolding receivers read write
  receivers-added topic t x sub old [] is = elim (Bool-cases (match_topic t topic)) [
    | inl hit ↦ guarded hit (rw (hit, ← is) (In-inserted x sub [] []))
    | inr miss ↦ rw miss (unguarded refl)
  ]
  receivers-added topic t x sub old ((k, subs) ∷ m) is = elim (Bool-cases (k == t)) [
    | inl same ↦
        let named : k ≡ t = (string_eq.equals_iff k t).0 same in
        let found : subs ≡ old = rw same at is in
        elim (Bool-cases (match_topic k topic)) [
          | inl hit ↦
              rw (same, ← found)
                (guarded (rw (← named) hit) (rw hit (In-inserted x sub subs (receivers topic m))))
          | inr miss ↦ rw (same, ← found) (rw miss (unguarded (rw (← named) miss)))
        ]
    | inr other ↦
        let found : or_none (read t m) ≡ old = rw other at is in
        elim (Bool-cases (match_topic k topic)) [
          | inl hit ↦
              rw other (rw hit (In-behind x subs _ _ (receivers-added topic t x sub old m found)))
          | inr miss ↦ rw other (rw miss (receivers-added topic t x sub old m found))
        ]
  ]

  -- The subscriptions that `Publish` collects for a topic, whose handlers it then calls in order until
  -- one fails, are after a subscription those that it collected before, and the new one exactly if its
  -- pattern matches the topic.
  pub subscribe-receivers :
      (topic t : String) (handler : Handler) (x : Subscription Handler) (b : LocalBus Handler)
      → (let (b', sub) = subscribe t handler b in
          In x (receivers topic b'.subs)
          ↔ (In x (receivers topic b.subs) ⊎ ((x ≡ sub) × (match_topic t topic ≡ true))))
  unfolding subscribe
  subscribe-receivers topic t handler x b = receivers-added topic t x _ _ b.subs refl

  -- A subscription that is taken back at once leaves the bus as it was to every event, and is found,
  -- as long as the counter has room and has given the ids of the subscriptions to that topic.
  pub subscribe-unsubscribe :
      (topic t : String) (handler : Handler) (b : LocalBus Handler)
      → b.sub_counter + 1 < 2 ^ 64
      → All (λ s. s.id ≤ b.sub_counter) (or_none (read t b.subs))
      → (let (b', sub) = subscribe t handler b in
          ((unsubscribe sub b').1 ≡ some tt)
          × (receivers topic (unsubscribe sub b').0.subs ≡ receivers topic b.subs))
  unfolding subscribe
  subscribe-unsubscribe topic t handler b small given =
      let next : (b.sub_counter + 1) % 2 ^ 64 ≡ b.sub_counter + 1 = omega arith in
      let old = or_none (read t b.subs) in
      let sub : Subscription Handler = record {
        id = (b.sub_counter + 1) % 2 ^ 64;
        topic = t;
        handler = handler;
      } in
      let b' : LocalBus Handler = record {
        subs = write t (old ++ sub ∷ []) b.subs;
        sub_counter = (b.sub_counter + 1) % 2 ^ 64;
      } in
      let there : remove_sub sub.id (or_none (read t b'.subs)) ≡ (old, true) =
        rw read-write_self (remove_sub_last b.sub_counter old sub given next) in
      let done = unsubscribe_found sub b' old there in
      (
        ap (λ r. r.1) done,
        ap (λ (r : LocalBus Handler × Option (Unit {0})). receivers topic r.0.subs) done
            ∙ receivers-write_back topic t (old ++ sub ∷ []) b.subs,
      )

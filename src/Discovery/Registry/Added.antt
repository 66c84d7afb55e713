-- ===== src/Discovery/Registry/Added.antt =====
-- A new watcher of internal/services/discovery/discovery.go has a channel of its own.
use go_backend_core.Prelude.{
  ℕ, ◌+◌, ◌≤◌, ◌≡◌, refl, ap, sym, ◌∙◌, ◌≢◌, ◌⊎◌, inl, inr, true, false, List, [], ◌∷◌, ◌++◌,
  String, All, In, Bool-cases, arith,
}
use go_backend_core.Prelude.Equality.{◌==◌, nat_eq, string_eq, equals_refl}
use go_backend_core.Prelude.Dict.{read-write}
use go_backend_core.Prelude.Search.{Distinct-append}
use go_backend_core.Discovery.Registry.{Channel, MemoryRegistry, put, watch}
use go_backend_core.Discovery.Registry.Channels.{watching, IsOpen, IsSound}

put_self : (ch : ℕ) (c : Channel) (channels : ℕ → Channel) → put ch c channels ch ≡ c
put_self ch c channels = let same : (ch == ch) ≡ true = equals_refl ch in rw same refl

put_other :
    (ch other : ℕ) (c : Channel) (channels : ℕ → Channel)
    → other ≢ ch
    → put ch c channels other ≡ channels other
put_other ch other c channels differ =
    let miss : (other == ch) ≡ false = ground (arith, nat_eq.equals_iff other ch) in rw miss refl

In-last : (x y : ℕ) (xs : List ℕ) → In x (xs ++ y ∷ []) → In x xs ⊎ (x ≡ y)
In-last x y [] there = elim there [ inl e ↦ inr (sym e) | inr none_ ↦ elim none_ [ ] ]
In-last x y (z ∷ xs) (inl e) = inl (inl e)
In-last x y (z ∷ xs) (inr there) = elim (In-last x y xs there) [
  | inl a ↦ inl (inr a)
  | inr e ↦ inr e
]

All-of : (P : ℕ → Type 0) (xs : List ℕ) → ((x : ℕ) → In x xs → P x) → All P xs
All-of P [] h = tt
All-of P (x ∷ xs) h = (h x (inl refl), All-of P xs (λ y there. h y (inr there)))

-- A channel that was there is not touched when another is made or closed.
pub put-IsOpen :
    (name : String) (ch x n : ℕ) (c : Channel) (r r' : MemoryRegistry)
    → r'.channels ≡ put ch c r.channels
    → r'.next ≡ n
    → r.next ≤ n
    → x ≢ ch
    → IsOpen name x r
    → IsOpen name x r'
put-IsOpen name ch x n c r r' channels next le differ o =
    let same : r'.channels x ≡ r.channels x =
      ap (λ f. f x) channels ∙ put_other ch x c r.channels differ in
    record {
      open_ = rw same o.open_;
      named = rw same o.named;
      made = let m = o.made in rw next (omega arith);
    }

pub watch-IsSound : (t : String) (r : MemoryRegistry) → IsSound r → IsSound (watch t r).0
unfolding watch
watch-IsSound t r v = record {
  opened = λ name x there. elim (Bool-cases (t == name)) [
    | inl hit ↦
        let is : t ≡ name = (string_eq.equals_iff t name).0 hit in
        elim (In-last x r.next (watching t r) (rw (read-write, hit) at there)) [
          | inl old ↦
              let o = v.opened t x old in
              let made = o.made in
              rw (← is) (
                put-IsOpen t r.next x (r.next + 1) _ r (watch t r).0 refl refl (omega arith)
                  (λ e. ground arith) o)
          | inr new ↦
              rw (new, ← is)
                (record {
                  open_ = ap (λ c. c.closed) (put_self r.next _ r.channels);
                  named = ap (λ c. c.name) (put_self r.next _ r.channels);
                  made = omega arith;
                })
        ]
    | inr miss ↦
        let o = v.opened name x (rw (read-write, miss) at there) in
        let made = o.made in
        put-IsOpen name r.next x (r.next + 1) _ r (watch t r).0 refl refl (omega arith)
          (λ e. ground arith) o
  ];
  once = λ name. elim (Bool-cases (t == name)) [
    | inl hit ↦
        rw (read-write, hit)
          (Distinct-append (λ (n : ℕ). n) (watching t r) r.next (v.once t)
            (All-of (λ y. y ≢ r.next) (watching t r)
              (λ x there. let made = (v.opened t x there).made in λ e. ground arith)))
    | inr miss ↦ rw (read-write, miss) (v.once name)
  ];
  calm = v.calm;
}

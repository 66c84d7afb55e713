-- ===== src/EventBus/DeadLetter/Newest.antt =====
-- Pushing to the queue of internal/services/eventbus/deadletter.go: the bound, and what is dropped.
use go_backend_core.Prelude.{
  ℕ, suc, zero, ◌-◌, ◌≤◌, ◌≡◌, refl, ap, sym, ◌∙◌, true, false, inl, inr, List, [], ◌∷◌, ◌++◌, map,
  String, length, drop, leb, arith, if◌then◌else◌, Bool-cases, length-append, length-drop,
}
use go_backend_core.Prelude.Int.{ℤ, pos, negsuc, pos_part, leb_ℤ}
use go_backend_core.EventBus.DeadLetter.{
  Event, DeadLetterEntry, DeadLetterQueue, new_dead_letter_queue, entry_of, push,
}

-- The last `n` elements.
abbrev pub last {ℓ} : {A : Type ℓ} → ℕ → List A → List A
last n xs = drop (length xs - n) xs

drop-drop_one {ℓ} : {A : Type ℓ} (n : ℕ) (xs : List A) → drop 1 (drop n xs) ≡ drop (suc n) xs
drop-drop_one zero xs = refl
drop-drop_one (suc n) [] = refl
drop-drop_one (suc n) (x ∷ xs) = drop-drop_one n xs

drop-append {ℓ} :
    {A : Type ℓ} (n : ℕ) (xs ys : List A) → n ≤ length xs → drop n (xs ++ ys) ≡ drop n xs ++ ys
drop-append zero xs ys h = refl
drop-append (suc n) [] ys h = absurd (omega arith)
drop-append (suc n) (x ∷ xs) ys h = drop-append n xs ys (omega arith)

pub append_assoc {ℓ} : {A : Type ℓ} (xs ys zs : List A) → (xs ++ ys) ++ zs ≡ xs ++ (ys ++ zs)
append_assoc [] ys zs = refl
append_assoc (x ∷ xs) ys zs = rw (append_assoc xs ys zs)

pub append-nil {ℓ} : {A : Type ℓ} (xs : List A) → xs ++ [] ≡ xs
append-nil [] = refl
append-nil (x ∷ xs) = rw (append-nil xs)

drop-nil {ℓ} : {A : Type ℓ} (n : ℕ) → drop {A = A} n [] ≡ []
drop-nil zero = refl
drop-nil (suc n) = refl

-- A queue that the constructor can have made, within its bound.
pub record IsBounded {P : Type 0} (q : DeadLetterQueue P) : Type 0 where
  pub capacity : ℕ
  pub positive : 1 ≤ capacity
  pub bound : q.max_size ≡ pos capacity
  pub fits : length q.entries ≤ capacity

abbrev pub capacity_of : ℤ → ℕ
capacity_of max_size = if leb_ℤ max_size (pos 0) then 1000 else pos_part max_size

capacity_of_lem :
    (max_size : ℤ)
    → (1 ≤ capacity_of max_size)
      × ((if leb_ℤ max_size (pos 0) then pos 1000 else max_size) ≡ pos (capacity_of max_size))
capacity_of_lem (pos n) = ground arith
capacity_of_lem (negsuc n) = ground arith

pub new_dead_letter_queue-IsBounded :
    {P : Type 0} (max_size : ℤ) → IsBounded (new_dead_letter_queue {P = P} max_size)
unfolding new_dead_letter_queue
new_dead_letter_queue-IsBounded max_size =
    let (positive, bound) = capacity_of_lem max_size in
    record {
      capacity = capacity_of max_size;
      positive = positive;
      bound = bound;
      fits = omega arith;
    }

module _ {P : Type 0} where
  last-snoc :
      (n : ℕ) (e : DeadLetterEntry P) (xs : List (DeadLetterEntry P))
      → 1 ≤ n
      → (if leb_ℤ (pos n) (pos (length (last n xs))) then drop 1 (last n xs) else last n xs)
          ++ e ∷ []
        ≡ last n (xs ++ e ∷ [])
  last-snoc n e xs h =
      let k : ℕ = length xs - n in
      let count : length (last n xs) ≡ length xs - k = length-drop k xs in
      let size : length (xs ++ e ∷ []) ≡ suc (length xs) =
        omega (arith, length-append xs (e ∷ [])) in
      elim (Bool-cases (leb n (length xs))) [
        | inl full ↦
            let test : leb_ℤ (pos n) (pos (length (last n xs))) ≡ true =
              ground (arith, count, full) in
            let more : suc (length xs) - n ≡ suc k = ground (arith, full) in
            let inside : suc k ≤ length xs = ground (arith, full) in
            rw (test, size, more, drop-append (suc k) xs (e ∷ []) inside, drop-drop_one k xs) refl
        | inr room ↦
            let test : leb_ℤ (pos n) (pos (length (last n xs))) ≡ false =
              ground (arith, count, room) in
            let none_before : k ≡ 0 = ground (arith, room) in
            let none_after : suc (length xs) - n ≡ 0 = ground (arith, room) in
            rw (test, size, none_after, none_before) refl
      ]

-- The arguments of a call of `Push`, with its instant.
abbrev pub Pushed : Type 0 → Type 0
Pushed P = Event P × String × ℤ × ℕ

abbrev pub entry_pushed : {P : Type 0} → Pushed P → DeadLetterEntry P
entry_pushed (event, reason, retries, now) = entry_of event reason retries now

unfoldable pub push_all : {P : Type 0} → List (Pushed P) → DeadLetterQueue P → DeadLetterQueue P
push_all [] q = q
push_all ((event, reason, retries, now) ∷ ps) q = push_all ps (push event reason retries now q)

module _ {P : Type 0} where
  push-last :
      (event : Event P) (reason : String) (retries : ℤ) (now n : ℕ) (q : DeadLetterQueue P)
      (xs : List (DeadLetterEntry P))
      → 1 ≤ n
      → q.max_size ≡ pos n
      → q.entries ≡ last n xs
      → (push event reason retries now q).entries
        ≡ last n (xs ++ entry_of event reason retries now ∷ [])
  unfolding push
  push-last event reason retries now n q xs h bound kept =
      rw (bound, kept) (last-snoc n (entry_of event reason retries now) xs h)

  push-max_size :
      (event : Event P) (reason : String) (retries : ℤ) (now : ℕ) (q : DeadLetterQueue P)
      → (push event reason retries now q).max_size ≡ q.max_size
  unfolding push
  push-max_size event reason retries now q = refl

  push_all-last :
      (ps : List (Pushed P)) (n : ℕ) (q : DeadLetterQueue P) (xs : List (DeadLetterEntry P))
      → 1 ≤ n
      → q.max_size ≡ pos n
      → q.entries ≡ last n xs
      → (push_all ps q).entries ≡ last n (xs ++ map entry_pushed ps)
  unfolding push_all
  push_all-last [] n q xs h bound kept = rw (append-nil xs) kept
  push_all-last ((event, reason, retries, now) ∷ ps) n q xs h bound kept =
      push_all-last ps n (push event reason retries now q) _ h
        (push-max_size event reason retries now q ∙ bound)
        (push-last event reason retries now n q xs h bound kept)
      ∙ ap (last n) (append_assoc xs (entry_of event reason retries now ∷ []) (map entry_pushed ps))

  -- A new queue that events are pushed to holds the newest of them, in order, as many as its capacity;
  -- a capacity that is not positive stands for 1000.
  pub push_all_newest :
      (max_size : ℤ) (ps : List (Pushed P))
      → (push_all ps (new_dead_letter_queue max_size)).entries
        ≡ last (capacity_of max_size) (map entry_pushed ps)
  unfolding new_dead_letter_queue
  push_all_newest max_size ps =
      let (positive, bound) = capacity_of_lem max_size in
      push_all-last ps (capacity_of max_size) (new_dead_letter_queue max_size) [] positive bound
        (sym (drop-nil (0 - capacity_of max_size)))

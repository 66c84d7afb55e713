-- ===== src/Prelude/Search.antt =====
-- Loops that look for the first element that passes a test, and return it or change it in place.
use mathlib.Core.Path.{◌≡◌, refl, ap, sym}
use mathlib.Core.Logic.{◌≢◌, inl, inr}
use mathlib.Core.Bool.{Bool, true, false}
use mathlib.Core.Option.{Option, none, some}
use mathlib.Core.List.{List, [], ◌∷◌, ◌++◌, map}
use native.Mathlib.Omega.{arith}
use go_backend_core.Prelude.Tests.{if◌then◌else◌, Bool-cases}
use go_backend_core.Prelude.Lists.{All, In}

module _ {A : Type 0} where
  unfoldable pub find_first : (A → Bool) → List A → Option A
  find_first p [] = none
  find_first p (x ∷ xs) = if p x then some x else find_first p xs

  unfoldable pub modify_first : (A → Bool) → (A → A) → List A → List A
  modify_first p f [] = []
  modify_first p f (x ∷ xs) = if p x then f x ∷ xs else x ∷ modify_first p f xs

  pub find_first_sound :
      (p : A → Bool) (xs : List A) (x : A) → find_first p xs ≡ some x → (p x ≡ true) × In x xs
  unfolding find_first
  find_first_sound p [] x h = cc
  find_first_sound p (y ∷ xs) x h = elim (Bool-cases (p y)) [
    | inl hit ↦ (ground arith, inl (ground arith))
    | inr miss ↦ let (holds, there) = find_first_sound p xs x (rw miss at h) in (holds, inr there)
  ]

  pub find_first-append :
      (p : A → Bool) (xs ys : List A)
      → find_first p xs ≡ none
      → find_first p (xs ++ ys) ≡ find_first p ys
  unfolding find_first
  find_first-append p [] ys h = refl
  find_first-append p (x ∷ xs) ys h = ground (arith, find_first-append p xs ys)

  -- A search that no element of the list passes.
  pub find_first-none :
      (p : A → Bool) (xs : List A) → All (λ x. p x ≡ false) xs → find_first p xs ≡ none
  unfolding find_first
  find_first-none p [] h = refl
  find_first-none p (x ∷ xs) (h, hs) = ground (arith, find_first-none p xs hs)

  module _ {B : Type 0} (g : A → B) where
    -- No two elements of the list have the same image.
    abbrev pub Distinct : List A → Type 0
    Distinct [] = Unit
    Distinct (x ∷ xs) = All (λ y. g y ≢ g x) xs × Distinct xs

    -- Changing an element in place keeps what the change leaves alone.
    pub map-modify_first :
        (p : A → Bool) (f : A → A)
        → ((x : A) → g (f x) ≡ g x)
        → (xs : List A) → map g (modify_first p f xs) ≡ map g xs
    unfolding modify_first
    map-modify_first p f same [] = refl
    map-modify_first p f same (x ∷ xs) = ground (arith, same x, map-modify_first p f same xs)

    All-modify_first :
        (b : B) (p : A → Bool) (f : A → A)
        → ((x : A) → g (f x) ≡ g x)
        → (xs : List A) → All (λ y. g y ≢ b) xs
        → All (λ y. g y ≢ b) (modify_first p f xs)
    unfolding modify_first
    All-modify_first b p f same [] h = tt
    All-modify_first b p f same (x ∷ xs) (h, hs) =
        ground (arith, same x, All-modify_first b p f same xs hs)

    pub Distinct-modify_first :
        (p : A → Bool) (f : A → A)
        → ((x : A) → g (f x) ≡ g x)
        → (xs : List A) → Distinct xs
        → Distinct (modify_first p f xs)
    unfolding modify_first
    Distinct-modify_first p f same [] h = tt
    Distinct-modify_first p f same (x ∷ xs) (h, hs) = elim (Bool-cases (p x)) [
      | inl hit ↦ rw hit (rw (same x) h, hs)
      | inr miss ↦
          rw miss (All-modify_first (g x) p f same xs h, Distinct-modify_first p f same xs hs)
    ]

    pub Distinct-append :
        (xs : List A) (x : A) → Distinct xs → All (λ y. g y ≢ g x) xs → Distinct (xs ++ x ∷ [])
    Distinct-append [] x d h = (tt, tt)
    Distinct-append (y ∷ xs) x (a, d) (h, hs) =
        (All_snoc xs a (λ e. h (sym e)), Distinct-append xs x d hs)
      where
        All_snoc :
            (zs : List A)
            → All (λ z. g z ≢ g y) zs
            → g x ≢ g y
            → All (λ z. g z ≢ g y) (zs ++ x ∷ [])
        All_snoc [] k n = (n, tt)
        All_snoc (z ∷ zs) (k, ks) n = (k, All_snoc zs ks n)

    All-ne-In : (b : B) (xs : List A) {x : A} → All (λ y. g y ≢ b) xs → In x xs → g x ≢ b
    All-ne-In b [] _ m = elim m [ ]
    All-ne-In b (y ∷ xs) (h, hs) (inl e) = rw (← e) h
    All-ne-In b (y ∷ xs) (h, hs) (inr m) = All-ne-In b xs hs m

    -- An element that passes a test which only its namesakes can pass is what a search finds.
    pub find_first_unique :
        (q : A → Bool) (xs : List A) (x : A)
        → Distinct xs
        → In x xs
        → q x ≡ true
        → ((y : A) → q y ≡ true → g y ≡ g x)
        → find_first q xs ≡ some x
    unfolding find_first
    find_first_unique q [] x _ m h only = elim m [ ]
    find_first_unique q (y ∷ xs) x (a, d) (inl e) h only = rw (e, h)
    find_first_unique q (y ∷ xs) x (a, d) (inr m) h only = elim (Bool-cases (q y)) [
      | inl hit ↦ absurd (All-ne-In (g y) xs a m (sym (only y hit)))
      | inr miss ↦ rw miss (find_first_unique q xs x d m h only)
    ]

  -- The element that a search finds is the one that is changed, and it stays in its place.
  pub In-modify_first :
      (p : A → Bool) (f : A → A) (xs : List A) (x : A)
      → find_first p xs ≡ some x
      → In (f x) (modify_first p f xs)
  unfolding find_first modify_first
  In-modify_first p f [] x h = cc
  In-modify_first p f (y ∷ xs) x h = elim (Bool-cases (p y)) [
    | inl hit ↦ rw hit (inl (ap f (ground arith)))
    | inr miss ↦ rw miss (inr (In-modify_first p f xs x (rw miss at h)))
  ]

  -- A search for something else, whose test the change does not affect, is not disturbed.
  pub find_first-modify_first_ne :
      (p q : A → Bool) (f : A → A) (xs : List A)
      → ((x : A) → p x ≡ true → (q x ≡ false) × (q (f x) ≡ false))
      → find_first q (modify_first p f xs) ≡ find_first q xs
  unfolding find_first modify_first
  find_first-modify_first_ne p q f [] other = refl
  find_first-modify_first_ne p q f (x ∷ xs) other =
      ground (arith, other x, find_first-modify_first_ne p q f xs other)

  pub find_first-some :
      (p : A → Bool) (xs : List A) (x : A)
      → In x xs
      → p x ≡ true
      → (y : A) × (find_first p xs ≡ some y)
  unfolding find_first
  find_first-some p [] x m h = elim m [ ]
  find_first-some p (y ∷ xs) x (inl e) h = (y, rw (e, h))
  find_first-some p (y ∷ xs) x (inr m) h = elim (Bool-cases (p y)) [
    | inl hit ↦ (y, rw hit)
    | inr miss ↦ let (z, e) = find_first-some p xs x m h in (z, rw miss e)
  ]

module _ {A B : Type 0} (g : A → B) where
  none_named :
      (q : A → Bool) (b : B) (xs : List A)
      → ((y : A) → q y ≡ true → g y ≡ b)
      → All (λ y. g y ≢ b) xs
      → find_first q xs ≡ none
  unfolding find_first
  none_named q b [] only h = refl
  none_named q b (x ∷ xs) only (h, hs) = elim (Bool-cases (q x)) [
    | inl hit ↦ absurd (h (only x hit))
    | inr miss ↦ rw miss (none_named q b xs only hs)
  ]

  -- A change that makes the only candidate fail a test leaves nothing for that test to find.
  pub find_first_gone :
      (p q : A → Bool) (f : A → A) (xs : List A) (x : A)
      → Distinct g xs
      → find_first p xs ≡ some x
      → ((y : A) → q y ≡ true → g y ≡ g x)
      → q (f x) ≡ false
      → find_first q (modify_first p f xs) ≡ none
  unfolding find_first modify_first
  find_first_gone p q f [] x d h only fails = cc
  find_first_gone p q f (y ∷ xs) x (a, d) h only fails = elim (Bool-cases (p y)) [
    | inl hit ↦
        let e : y ≡ x = ground arith in rw (hit, e, fails) (none_named q (g x) xs only (rw e at a))
    | inr miss ↦
        let h' : find_first p xs ≡ some x = rw miss at h in
        elim (Bool-cases (q y)) [
          | inl bad ↦
              absurd (All-ne-In g (g y) xs a (find_first_sound p xs x h').1 (sym (only y bad)))
          | inr good ↦ rw (miss, good) (find_first_gone p q f xs x d h' only fails)
        ]
  ]

-- ===== src/Prelude/Entries.antt =====
-- The entries of a Go map: each key stands once, and what holds of all entries.
use mathlib.Core.Path.{◌≡◌, refl, sym, subst}
use mathlib.Core.Logic.{◌≢◌, inl, inr}
use mathlib.Core.Option.{none, some}
use mathlib.Core.List.{[], ◌∷◌}
use Prim.Native.Nat.{◌<◌}
use native.Mathlib.Omega.{arith}
use go_backend_core.Prelude.Tests.{Bool-cases}
use go_backend_core.Prelude.Lists.{All, In, length}
use go_backend_core.Prelude.Equality.{Comparable, ◌==◌}
use go_backend_core.Prelude.Dict.{Dict, read, write, delete, length-delete-le}
use go_backend_core.Prelude.Search.{Distinct}

module _ {Key Value : Type 0} ⦃cmp : Comparable Key⦄ where
  abbrev pub IsMap : Dict Key Value → Type 0
  IsMap m = Distinct (λ (e : Key × Value). e.0) m

  pub All-write :
      (P : Key × Value → Type 0) (key : Key) (value : Value) (m : Dict Key Value)
      → P (key, value)
      → All P m
      → All P (write key value m)
  unfolding write
  All-write P key value [] p h = (p, tt)
  All-write P key value ((k, v) ∷ rest) p (q, h) = elim (Bool-cases (k == key)) [
    | inl same ↦ rw same (subst (λ x. P (x, value)) (sym ((cmp.equals_iff k key).0 same)) p, h)
    | inr other ↦ rw other (q, All-write P key value rest p h)
  ]

  pub All-delete :
      (P : Key × Value → Type 0) (key : Key) (m : Dict Key Value) → All P m → All P (delete key m)
  unfolding delete
  All-delete P key [] h = tt
  All-delete P key ((k, v) ∷ rest) (q, h) = elim (Bool-cases (k == key)) [
    | inl same ↦ rw same (All-delete P key rest h)
    | inr other ↦ rw other (q, All-delete P key rest h)
  ]

  pub write-IsMap :
      (key : Key) (value : Value) (m : Dict Key Value) → IsMap m → IsMap (write key value m)
  unfolding write
  write-IsMap key value [] h = (tt, tt)
  write-IsMap key value ((k, v) ∷ rest) (new, h) = elim (Bool-cases (k == key)) [
    | inl same ↦ rw same (new, h)
    | inr other ↦ rw other (
      All-write (λ (e : Key × Value). e.0 ≢ k) key value rest
          (λ e. ground (arith, cmp.equals_iff k key, other)) new,
      write-IsMap key value rest h,
    )
  ]

  pub delete-IsMap : (key : Key) (m : Dict Key Value) → IsMap m → IsMap (delete key m)
  unfolding delete
  delete-IsMap key [] h = tt
  delete-IsMap key ((k, v) ∷ rest) (new, h) = elim (Bool-cases (k == key)) [
    | inl same ↦ rw same (delete-IsMap key rest h)
    | inr other ↦
        rw other (All-delete (λ (e : Key × Value). e.0 ≢ k) key rest new, delete-IsMap key rest h)
  ]

  -- What is read satisfies what all entries do.
  pub All-read :
      (P : Key × Value → Type 0) (key : Key) (value : Value) (m : Dict Key Value)
      → All P m
      → read key m ≡ some value
      → P (key, value)
  unfolding read
  All-read P key value [] h e = cc
  All-read P key value ((k, v) ∷ rest) (q, h) e = elim (Bool-cases (k == key)) [
    | inl same ↦
        let found : v ≡ value = ground (arith, same) in
        subst (λ x. P (key, x)) found (subst (λ x. P (x, v)) ((cmp.equals_iff k key).0 same) q)
    | inr other ↦ All-read P key value rest h (rw other at e)
  ]

  read_absent :
      (key : Key) (m : Dict Key Value) → All (λ (e : Key × Value). e.0 ≢ key) m → read key m ≡ none
  unfolding read
  read_absent key [] h = refl
  read_absent key ((k, v) ∷ rest) (ne, h) =
      ground (arith, cmp.equals_iff k key, read_absent key rest h)

  pub All-In :
      (P : Key × Value → Type 0) (e : Key × Value) (m : Dict Key Value) → All P m → In e m → P e
  All-In P e [] h i = elim i [ ]
  All-In P e (x ∷ m) (p, h) (inl here) = subst P here p
  All-In P e (x ∷ m) (p, h) (inr there) = All-In P e m h there

  -- An entry of a map is what its key reads.
  pub read-In :
      (key : Key) (value : Value) (m : Dict Key Value)
      → IsMap m
      → In (key, value) m
      → read key m ≡ some value
  unfolding read
  read-In key value [] h i = elim i [ ]
  read-In key value ((k, v) ∷ rest) (new, h) (inl here) =
      let same_key : k ≡ key = cc in
      let same : v ≡ value = cc in ground (arith, cmp.equals_iff k key)
  read-In key value ((k, v) ∷ rest) (new, h) (inr there) =
      let other : key ≢ k = All-In (λ (e : Key × Value). e.0 ≢ k) (key, value) rest new there in
      ground (
        arith,
        cmp.equals_iff k key,
        read-In key value rest h there,
        λ (e : k ≡ key). other (sym e),
      )

  pub length-delete-lt :
      (key : Key) (value : Value) (m : Dict Key Value)
      → In (key, value) m
      → length (delete key m) < length m
  unfolding delete
  length-delete-lt key value [] i = elim i [ ]
  length-delete-lt key value ((k, v) ∷ rest) (inl here) =
      let same : k ≡ key = cc in ground (arith, cmp.equals_iff k key, length-delete-le key rest)
  length-delete-lt key value ((k, v) ∷ rest) (inr there) =
      ground (arith, length-delete-lt key value rest there, length-delete-le key rest)

  -- Overwriting an entry adds none.
  pub length-write :
      (key : Key) (value old : Value) (m : Dict Key Value)
      → read key m ≡ some old
      → length (write key value m) ≡ length m
  unfolding read write
  length-write key value old [] h = cc
  length-write key value old ((k, v) ∷ rest) h = ground (arith, length-write key value old rest)

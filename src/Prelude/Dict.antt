-- ===== src/Prelude/Dict.antt =====
-- A Go map as an association list: reading, writing and deleting a key, with the laws.
use mathlib.Core.Path.{◌≡◌, refl}
use mathlib.Core.Option.{Option, none, some}
use mathlib.Core.List.{List, [], ◌∷◌}
use Prim.Native.Nat.{◌+◌, ◌≤◌}
use native.Mathlib.Omega.{arith}
use go_backend_core.Prelude.Tests.{if◌then◌else◌}
use go_backend_core.Prelude.Lists.{length}
use go_backend_core.Prelude.Equality.{Comparable, ◌==◌, equals_refl}

abbrev pub Dict {ℓ κ} : Type ℓ → Type κ → Type (ℓ ⊔ κ)
Dict Key Value = List (Key × Value)

module _ {ℓ κ} {Key : Type ℓ} {Value : Type κ} ⦃cmp : Comparable Key⦄ where
  -- `m[key]`, with `none` for a missing key.
  unfoldable pub read : Key → Dict Key Value → Option Value
  read key [] = none
  read key (entry ∷ rest) = if entry.0 == key then some entry.1 else read key rest

  -- `m[key] = value`; an entry of the key is overwritten in its place.
  unfoldable pub write : Key → Value → Dict Key Value → Dict Key Value
  write key value [] = (key, value) ∷ []
  write key value (entry ∷ rest) =
      if entry.0 == key then (entry.0, value) ∷ rest else entry ∷ write key value rest

  -- `delete(m, key)`: every entry of the key goes.
  unfoldable pub delete : Key → Dict Key Value → Dict Key Value
  delete key [] = []
  delete key (entry ∷ rest) = if entry.0 == key then delete key rest else entry ∷ delete key rest

  pub read-write :
      (key other : Key) (value : Value) (m : Dict Key Value)
      → read other (write key value m) ≡ (if key == other then some value else read other m)
  unfolding read write
  read-write key other value [] = refl
  read-write key other value ((k, v) ∷ rest) = ground (
    arith,
    read-write key other value rest,
    cmp.equals_iff k other,
    cmp.equals_iff k key,
    cmp.equals_iff key other,
  )

  pub read-delete :
      (key other : Key) (m : Dict Key Value)
      → read other (delete key m) ≡ (if key == other then none else read other m)
  unfolding read delete
  read-delete key other [] = ground arith
  read-delete key other ((k, v) ∷ rest) = ground (
    arith,
    read-delete key other rest,
    cmp.equals_iff k other,
    cmp.equals_iff k key,
    cmp.equals_iff key other,
  )

  pub read-write_self :
      (key : Key) (value : Value) (m : Dict Key Value) → read key (write key value m) ≡ some value
  read-write_self key value m = simp (read-write, equals_refl)

  pub length-delete-le : (key : Key) (m : Dict Key Value) → length (delete key m) ≤ length m
  unfolding delete
  length-delete-le key [] = omega arith
  length-delete-le key (entry ∷ rest) = ground (arith, length-delete-le key rest)

  pub length-write-le :
      (key : Key) (value : Value) (m : Dict Key Value) → length (write key value m) ≤ length m + 1
  unfolding write
  length-write-le key value [] = omega arith
  length-write-le key value (entry ∷ rest) = ground (arith, length-write-le key value rest)

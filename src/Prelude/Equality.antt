-- ===== src/Prelude/Equality.antt =====
-- Go's `==` on the comparable types that the program uses as keys.
use Prim.Native.Nat.{ℕ}
use Prim.Native.String.{String}
use mathlib.Core.Path.{◌≡◌, refl}
use mathlib.Core.Logic.{◌↔◌}
use mathlib.Core.Bool.{Bool, true}
use text.Mathlib.Text.{◌==◌ as text_equals}
use text.Mathlib.TextEquality.{eq_iff}
use go_backend_core.Prelude.Tests.{nat_beq, nat_beq_iff}

-- A type with a decided equality, as Go's constraint of that name.
pub record Comparable {ℓ} (Key : Type ℓ) : Type ℓ where
  pub equals : Key → Key → Bool
  pub equals_iff : (x y : Key) → (equals x y ≡ true) ↔ (x ≡ y)

instance abbrev pub string_eq : Comparable String
string_eq = record { equals = text_equals; equals_iff = eq_iff }

instance abbrev pub nat_eq : Comparable ℕ
nat_eq = record { equals = nat_beq; equals_iff = nat_beq_iff }

module _ {ℓ} {Key : Type ℓ} ⦃cmp : Comparable Key⦄ where
  infix 50 ◌==◌
  abbrev pub ◌==◌ : Key → Key → Bool
  x == y = cmp.equals x y

  pub equals_refl : (x : Key) → (x == x) ≡ true
  equals_refl x = (cmp.equals_iff x x).1 refl

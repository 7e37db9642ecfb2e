-- ===== src/Common/Branches.antt =====
-- The results of branching code under a predicate, with what the branch knows of the test.
use mathlib.Core.Path.{◌≡◌, refl}
use mathlib.Core.Bool.{Bool, true, false}
use mathlib.Core.Option.{Option, none, some}
use keidai.Common.Tests.{if◌then◌else◌}

module _ {R : Type 0} (P : R → Type 0) where
  pub option_both :
      {A : Type 0} (x : Option A) (f : R) (g : A → R)
      → P f
      → ((a : A) → P (g a))
      → P (elim x [ none ↦ f | some a ↦ g a ])
  option_both none f g h k = h
  option_both (some a) f g h k = k a

  pub option_eq :
      {A : Type 0} (x : Option A) (f : R) (g : A → R)
      → P f
      → ((a : A) → x ≡ some a → P (g a))
      → P (elim x [ none ↦ f | some a ↦ g a ])
  option_eq none f g h k = h
  option_eq (some a) f g h k = k a refl

  pub if_both : (c : Bool) (x y : R) → P x → P y → P (if c then x else y)
  if_both true x y h k = h
  if_both false x y h k = k

  pub if_eq : (c : Bool) (x y : R) → (c ≡ true → P x) → (c ≡ false → P y) → P (if c then x else y)
  if_eq true x y h k = h refl
  if_eq false x y h k = k refl

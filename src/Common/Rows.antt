-- ===== src/Common/Rows.antt =====
-- What updates, deletions and insertions of rows leave of counts, keys and predicates.
use Prim.Native.Nat.{◌+◌, ◌≤◌}
use Prim.Native.String.{String}
use mathlib.Core.Path.{◌≡◌, refl}
use mathlib.Core.Logic.{inl, inr}
use mathlib.Core.Bool.{Bool, true, false, ◌&&◌}
use mathlib.Core.List.{List, [], ◌∷◌, ◌++◌, map}
use native.Mathlib.Omega.{arith}
use keidai.Common.Lists.{All, Elem, IsDistinct, any}
use keidai.Common.Tests.{Bool-cases}
use keidai.Common.Table.{update_where, count_where, delete_where}

module _ {A : Type 0} (p : A → Bool) where
  -- An update adds no more rows to a count than it turns.
  pub count-update_le :
      (q : A → Bool) (f : A → A) (xs : List A)
      → count_where p (update_where q f xs)
        ≤ count_where p xs + count_where (λ x. q x && p (f x)) xs
  count-update_le q f [] = omega arith
  count-update_le q f (x ∷ xs) = ground (arith, count-update_le q f xs)

  pub count-update_quiet :
      (q : A → Bool) (f : A → A) (xs : List A)
      → ((x : A) → p (f x) ≡ true → p x ≡ true)
      → count_where p (update_where q f xs) ≤ count_where p xs
  count-update_quiet q f [] h = omega arith
  count-update_quiet q f (x ∷ xs) h = ground (arith, h x, count-update_quiet q f xs h)

  pub count-delete_le :
      (d : A → Bool) (xs : List A) → count_where p (delete_where d xs) ≤ count_where p xs
  count-delete_le d [] = omega arith
  count-delete_le d (x ∷ xs) = ground (arith, count-delete_le d xs)

  pub count-append :
      (xs ys : List A) → count_where p (xs ++ ys) ≡ count_where p xs + count_where p ys
  count-append [] ys = omega arith
  count-append (x ∷ xs) ys = ground (arith, count-append xs ys)

  pub count-any : (xs : List A) → any p xs ≡ false → count_where p xs ≡ 0
  count-any [] h = refl
  count-any (x ∷ xs) h = ground (arith, count-any xs)

pub count-ext :
    {A : Type 0} (p q : A → Bool) (xs : List A)
    → ((x : A) → p x ≡ q x)
    → count_where p xs ≡ count_where q xs
count-ext p q [] h = refl
count-ext p q (x ∷ xs) h = ground (arith, h x, count-ext p q xs h)

module _ {A : Type 0} (key : A → String) where
  Elem-delete :
      (k : String) (d : A → Bool) (xs : List A)
      → Elem k (map key (delete_where d xs))
      → Elem k (map key xs)
  Elem-delete k d [] m = m
  Elem-delete k d (x ∷ xs) m = ground (arith, Elem-delete k d xs)

  pub IsDistinct-delete :
      (d : A → Bool) (xs : List A)
      → IsDistinct (map key xs)
      → IsDistinct (map key (delete_where d xs))
  IsDistinct-delete d [] h = tt
  IsDistinct-delete d (x ∷ xs) (fresh, h) =
      ground (arith, IsDistinct-delete d xs h, Elem-delete (key x) d xs)

module _ {A : Type 0} (P : A → Type 0) where
  pub All-update :
      (q : A → Bool) (f : A → A) (xs : List A)
      → ((x : A) → q x ≡ true → P x → P (f x))
      → All P xs
      → All P (update_where q f xs)
  All-update q f [] keep h = tt
  All-update q f (x ∷ xs) keep (p, h) = elim (Bool-cases (q x)) [
    | inl e ↦ ground (arith, e, keep x e p, All-update q f xs keep h)
    | inr e ↦ ground (arith, e, p, All-update q f xs keep h)
  ]

  pub All-delete : (d : A → Bool) (xs : List A) → All P xs → All P (delete_where d xs)
  All-delete d [] h = tt
  All-delete d (x ∷ xs) (p, h) = elim (Bool-cases (d x)) [
    | inl e ↦ ground (arith, e, All-delete d xs h)
    | inr e ↦ ground (arith, e, p, All-delete d xs h)
  ]

-- ===== src/Common/Table.antt =====
-- Tables as lists of rows, with the statements that the repositories run on them.
use Prim.Native.Nat.{ℕ, suc}
use mathlib.Core.Path.{◌≡◌, refl, ap, subst}
use mathlib.Core.Bool.{Bool, true, false, ◌&&◌}
use mathlib.Core.Option
use mathlib.Core.Option
use mathlib.Core.Option.{Option, none, some}
use mathlib.Core.List.{List, [], ◌∷◌, ◌++◌, map}
use native.Mathlib.Omega.{arith}
use Prim.Native.String.{String}
use mathlib.Core.Logic.{◌≢◌, inl, inr}
use text.Mathlib.Text.{◌==◌ as str_eq}
use text.Mathlib.TextEquality.{eq_iff}
use keidai.Common.Lists.{Elem, Elem-map, IsDistinct}
use keidai.Common.Tests.{Bool-cases, if◌then◌else◌}

module _ {ℓ} {A : Type ℓ} where
  -- `SELECT ... WHERE p`, then `rows[0]`; also `xs.find(p)`.
  abbrev pub find : (A → Bool) → List A → Option A
  find p [] = none
  find p (x ∷ xs) = let rest = find p xs in if p x then some x else rest

  -- `UPDATE ... SET f WHERE p`.
  abbrev pub update_where : (A → Bool) → (A → A) → List A → List A
  update_where p f [] = []
  update_where p f (x ∷ xs) = (if p x then f x else x) ∷ update_where p f xs

  -- The row count that an `UPDATE ... WHERE p` reports.
  abbrev pub count_where : (A → Bool) → List A → ℕ
  count_where p [] = 0
  count_where p (x ∷ xs) = let rest = count_where p xs in if p x then suc rest else rest

  -- `DELETE ... WHERE p`.
  abbrev pub delete_where : (A → Bool) → List A → List A
  delete_where p [] = []
  delete_where p (x ∷ xs) = let rest = delete_where p xs in if p x then rest else x ∷ rest

-- A key that no two rows share finds its row.
pub find_key :
    {A : Type 0} (key : A → String) (xs : List A) (x : A)
    → IsDistinct (map key xs)
    → Elem x xs
    → find (λ y. str_eq (key y) (key x)) xs ≡ some x
find_key key [] x d m = absurd m
find_key key (y ∷ ys) x (fresh, d) (inl e) = ground (arith, eq_iff (key y) (key x), ap key e)
find_key key (y ∷ ys) x (fresh, d) (inr m) = ground (
  arith,
  eq_iff (key y) (key x),
  Elem-map key x ys m,
  find_key key ys x d m,
  λ (e : key y ≡ key x). subst (λ k. ¬ Elem k (map key ys)) e fresh,
)

module _ {A : Type 0} where
  -- An update that keeps a test's answers is seen through the test as an update of the row found.
  pub find-update :
      (p q : A → Bool) (f : A → A) (xs : List A)
      → ((x : A) → p (f x) ≡ p x)
      → find p (update_where q f xs) ≡ Option.map (λ x. if q x then f x else x) (find p xs)
  find-update p q f [] keep = refl
  find-update p q f (x ∷ xs) keep = ground (arith, keep x, find-update p q f xs keep)

  pub find-holds : (p : A → Bool) (xs : List A) (x : A) → find p xs ≡ some x → p x ≡ true
  find-holds p [] x e = cc
  find-holds p (y ∷ ys) x e = ground (arith, find-holds p ys x)

  pub find-Elem : (p : A → Bool) (xs : List A) (x : A) → find p xs ≡ some x → Elem x xs
  find-Elem p [] x e = cc
  find-Elem p (y ∷ ys) x e = ground (arith, find-Elem p ys x)

  -- A row appended to a table is found where nothing before it is.
  pub find-append :
      (p : A → Bool) (xs : List A) (x : A)
      → find p (xs ++ x ∷ [])
        ≡ elim (find p xs) [ some y ↦ some y | none ↦ if p x then some x else none ]
  find-append p [] x = ground arith
  find-append p (y ∷ ys) x = ground (arith, find-append p ys x)

  pub update-none :
      (q : A → Bool) (f : A → A) (xs : List A) → count_where q xs ≡ 0 → update_where q f xs ≡ xs
  update-none q f [] h = refl
  update-none q f (x ∷ xs) h = ground (arith, update-none q f xs)

  pub map-key_update :
      (key : A → String) (q : A → Bool) (f : A → A) (xs : List A)
      → ((x : A) → key (f x) ≡ key x)
      → map key (update_where q f xs) ≡ map key xs
  map-key_update key q f [] keep = refl
  map-key_update key q f (x ∷ xs) keep = ground (arith, keep x, map-key_update key q f xs keep)

-- Statements that name one row by a key that no two rows share.
module _ {A : Type 0} (key : A → String) (k : String) where
  abbrev pub by_key : A → Bool
  by_key x = str_eq (key x) k

  count-absent :
      (g : A → Bool) (xs : List A)
      → ¬ Elem k (map key xs)
      → count_where (λ x. by_key x && g x) xs ≡ 0
  count-absent g [] h = refl
  count-absent g (x ∷ xs) h = ground (arith, eq_iff (key x) k, count-absent g xs)

  find-absent : (xs : List A) → ¬ Elem k (map key xs) → find by_key xs ≡ none
  find-absent [] h = refl
  find-absent (x ∷ xs) h = ground (arith, eq_iff (key x) k, find-absent xs)

  -- The row count of an update of that row under a guard is 1 exactly where the guard holds.
  pub count-by_key :
      (g : A → Bool) (xs : List A)
      → IsDistinct (map key xs)
      → count_where (λ x. by_key x && g x) xs
        ≡ elim (find by_key xs) [ none ↦ 0 | some x ↦ if g x then 1 else 0 ]
  count-by_key g [] d = refl
  count-by_key g (x ∷ xs) (fresh, d) = elim (Bool-cases (by_key x)) [
    | inl e ↦
        let same = (eq_iff (key x) k).0 e in
        ground (arith, e, count-absent g xs (subst (λ j. ¬ Elem j (map key xs)) same fresh))
    | inr n ↦ ground (arith, n, count-by_key g xs d)
  ]

  -- What a guarded update of that row leaves for a reader of it.
  pub find-update_guarded :
      (g : A → Bool) (f : A → A) (xs : List A)
      → ((x : A) → key (f x) ≡ key x)
      → find by_key (update_where (λ x. by_key x && g x) f xs)
        ≡ Option.map (λ x. if g x then f x else x) (find by_key xs)
  find-update_guarded g f [] keep = refl
  find-update_guarded g f (x ∷ xs) keep = ground (arith, keep x, find-update_guarded g f xs keep)

pub find-update_other :
    {A : Type 0} (key : A → String) (k j : String) (g : A → Bool) (f : A → A) (xs : List A)
    → ((x : A) → key (f x) ≡ key x)
    → k ≢ j
    → find (λ x. str_eq (key x) j) (update_where (λ x. str_eq (key x) k && g x) f xs)
      ≡ find (λ x. str_eq (key x) j) xs
find-update_other key k j g f [] keep n = refl
find-update_other key k j g f (x ∷ xs) keep n =
    ground
      (arith, keep x, eq_iff (key x) k, eq_iff (key x) j, find-update_other key k j g f xs keep n)

module _ {A : Type 0} where
  -- A deletion that spares what a test finds is not seen through the test.
  pub find-delete :
      (p d : A → Bool) (xs : List A)
      → ((x : A) → p x ≡ true → d x ≡ false)
      → find p (delete_where d xs) ≡ find p xs
  find-delete p d [] spare = refl
  find-delete p d (x ∷ xs) spare = ground (arith, spare x, find-delete p d xs spare)

  -- A deletion that spares the row that a test finds.
  pub find-delete_kept :
      (p d : A → Bool) (xs : List A) (x : A)
      → find p xs ≡ some x
      → d x ≡ false
      → find p (delete_where d xs) ≡ some x
  find-delete_kept p d [] x e h = cc
  find-delete_kept p d (y ∷ ys) x e h = elim (Bool-cases (p y)) [
    | inl t ↦ ground (arith, t, λ (k : y ≡ x). ap d k)
    | inr f ↦ ground (arith, f, find-delete_kept p d ys x)
  ]

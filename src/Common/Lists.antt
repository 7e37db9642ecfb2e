-- ===== src/Common/Lists.antt =====
-- Lists measured by native numbers, predicates over lists, and membership tests on lists of texts.
use Prim.Native.Nat.{ℕ, suc, ◌+◌}
use Prim.Native.String.{String}
use mathlib.Core.Path.{◌≡◌, refl, sym, ap, subst}
use mathlib.Core.Logic.{◌↔◌, ◌⊎◌, inl, inr}
use mathlib.Core.Bool.{Bool, true, false, ◌||◌, ◌&&◌}
use mathlib.Core.List.{List, [], ◌∷◌, ◌++◌, map}
use native.Mathlib.Omega.{arith}
use text.Mathlib.Text.{◌==◌ as str_eq}
use text.Mathlib.TextEquality.{eq_iff}
use keidai.Common.Tests.{if◌then◌else◌}

module _ {ℓ} {A : Type ℓ} where
  abbrev pub length : List A → ℕ
  length [] = 0
  length (x ∷ xs) = suc (length xs)

  pub length-append : (xs ys : List A) → length (xs ++ ys) ≡ length xs + length ys
  length-append [] ys = omega arith
  length-append (x ∷ xs) ys = omega (arith, length-append xs ys)

  -- `xs.filter(p)`, by a Boolean test.
  abbrev pub filter : (A → Bool) → List A → List A
  filter p [] = []
  filter p (x ∷ xs) = let rest = filter p xs in if p x then x ∷ rest else rest

  -- `xs.some(p)` and `xs.every(p)`.
  abbrev pub any : (A → Bool) → List A → Bool
  any p [] = false
  any p (x ∷ xs) = p x || any p xs

  abbrev pub all : (A → Bool) → List A → Bool
  all p [] = true
  all p (x ∷ xs) = p x && all p xs

module _ {ℓ} {A : Type ℓ} (P : A → Type 0) where
  abbrev pub All : List A → Type 0
  All [] = Unit
  All (x ∷ xs) = P x × All xs

  abbrev pub Any : List A → Type 0
  Any [] = ⊥
  Any (x ∷ xs) = P x ⊎ Any xs

  pub All-append : (xs ys : List A) → All xs → All ys → All (xs ++ ys)
  All-append [] ys h k = k
  All-append (x ∷ xs) ys (p, h) k = (p, All-append xs ys h k)

  pub All-split : (xs ys : List A) → All (xs ++ ys) → All xs × All ys
  All-split [] ys h = (tt, h)
  All-split (x ∷ xs) ys (p, h) = let (a, b) = All-split xs ys h in ((p, a), b)

-- An element of a list, with its place.
abbrev pub Elem : {A : Type 0} → A → List A → Type 0
Elem a [] = ⊥
Elem a (x ∷ xs) = (x ≡ a) ⊎ Elem a xs

abbrev pub IsDistinct : {A : Type 0} → List A → Type 0
IsDistinct [] = Unit
IsDistinct (x ∷ xs) = ¬ Elem x xs × IsDistinct xs

pub Elem-map : {A B : Type 0} (f : A → B) (x : A) (xs : List A) → Elem x xs → Elem (f x) (map f xs)
Elem-map f x [] m = absurd m
Elem-map f x (y ∷ ys) (inl e) = inl (ap f e)
Elem-map f x (y ∷ ys) (inr m) = inr (Elem-map f x ys m)

pub Elem-filter :
    {A : Type 0} (p : A → Bool) (x : A) (xs : List A)
    → Elem x (filter p xs)
    → Elem x xs × (p x ≡ true)
Elem-filter p x [] m = absurd m
Elem-filter p x (y ∷ ys) m = ground (arith, m, Elem-filter p x ys, λ (e : y ≡ x). ap p e)

-- `xs.includes(a)`, and `set.has(a)` on a set built from `xs`.
abbrev pub includes : List String → String → Bool
includes [] a = false
includes (x ∷ xs) a = str_eq x a || includes xs a

pub includes_iff : (xs : List String) (a : String) → (includes xs a ≡ true) ↔ Elem a xs
includes_iff [] a = ((λ h. cc), (λ h. absurd h))
includes_iff (x ∷ xs) a = ground (arith, includes_iff xs a, eq_iff x a)

-- A test that decides a predicate decides it on a list.
module _ {A : Type 0} {p : A → Bool} {P : A → Type 0} (decides : (x : A) → (p x ≡ true) ↔ P x) where
  pub any_iff : (xs : List A) → (any p xs ≡ true) ↔ Any P xs
  any_iff [] = ((λ h. cc), (λ h. absurd h))
  any_iff (x ∷ xs) = ground (arith, any_iff xs, decides x)

  pub all_iff : (xs : List A) → (all p xs ≡ true) ↔ All P xs
  all_iff [] = ground arith
  all_iff (x ∷ xs) = ground (arith, all_iff xs, decides x)

module _ {A : Type 0} where
  pub Any-of_Elem : (P : A → Type 0) (x : A) (xs : List A) → Elem x xs → P x → Any P xs
  Any-of_Elem P x [] m p = absurd m
  Any-of_Elem P x (y ∷ ys) (inl e) p = inl (subst P (sym e) p)
  Any-of_Elem P x (y ∷ ys) (inr m) p = inr (Any-of_Elem P x ys m p)

  pub Elem-of_Any : (P : A → Type 0) (xs : List A) → Any P xs → (x : A) × Elem x xs × P x
  Elem-of_Any P [] a = absurd a
  Elem-of_Any P (x ∷ xs) (inl p) = (x, inl refl, p)
  Elem-of_Any P (x ∷ xs) (inr a) = let (y, m, p) = Elem-of_Any P xs a in (y, inr m, p)

  pub All-at : (P : A → Type 0) (x : A) (xs : List A) → All P xs → Elem x xs → P x
  All-at P x [] h m = absurd m
  All-at P x (y ∷ ys) (p, h) (inl e) = subst P e p
  All-at P x (y ∷ ys) (p, h) (inr m) = All-at P x ys h m

  pub any_of_Elem : (p : A → Bool) (x : A) (xs : List A) → Elem x xs → p x ≡ true → any p xs ≡ true
  any_of_Elem p x xs m h =
      let P : A → Type 0 = λ y. p y ≡ true in
      (any_iff {P = P} (λ y. (λ e. e, λ e. e)) xs).1 (Any-of_Elem P x xs m h)

pub append-eq-nil_iff {ℓ} :
    {A : Type ℓ} (xs ys : List A) → (xs ++ ys ≡ []) ↔ ((xs ≡ []) × (ys ≡ []))
append-eq-nil_iff [] ys = ground arith
append-eq-nil_iff (x ∷ xs) ys = ground arith

-- No element of one list is in the other.
abbrev pub IsDisjoint : List String → List String → Type 0
IsDisjoint xs ys = All (λ x. ¬ Elem x ys) xs

pub IsDisjoint-cons_right :
    (a : String) (xs seen : List String)
    → IsDisjoint xs (a ∷ seen) ↔ ((¬ Elem a xs) × IsDisjoint xs seen)
IsDisjoint-cons_right a [] seen = ((λ _. (λ h. h, tt)), (λ _. tt))
IsDisjoint-cons_right a (x ∷ xs) seen = ground (arith, IsDisjoint-cons_right a xs seen)

pub IsDisjoint-nil_right : (xs : List String) → IsDisjoint xs []
IsDisjoint-nil_right [] = tt
IsDisjoint-nil_right (x ∷ xs) = ((λ h. h), IsDisjoint-nil_right xs)

pub not-Elem-append :
    {A : Type 0} (x : A) (xs ys : List A) → ¬ Elem x xs → ¬ Elem x ys → ¬ Elem x (xs ++ ys)
not-Elem-append x [] ys h k m = k m
not-Elem-append x (y ∷ xs) ys h k (inl e) = h (inl e)
not-Elem-append x (y ∷ xs) ys h k (inr m) = not-Elem-append x xs ys (λ m'. h (inr m')) k m

pub IsDistinct-append :
    {A : Type 0} (xs : List A) (x : A) → ¬ Elem x xs → IsDistinct xs → IsDistinct (xs ++ x ∷ [])
IsDistinct-append [] x n d = ((λ h. h), tt)
IsDistinct-append (y ∷ ys) x n (fresh, d) = (
  not-Elem-append y ys (x ∷ []) fresh (elim [ inl e ↦ n (inl (sym e)) | inr m ↦ m ]),
  IsDistinct-append ys x (λ m. n (inr m)) d,
)

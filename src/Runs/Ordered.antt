-- ===== src/Runs/Ordered.antt =====
-- Messages of parked runs in the order in which they are handed out (drainParkedFollowUps of
-- apps/shaiden/src/runs/pg-run-repository.ts).
use keidai.Common.{
  ℕ, ◌≤◌, ◌<◌, String, ◌≡◌, refl, ap, ◌∙◌, Bool, true, List, [], ◌∷◌, ◌++◌, arith, inl, inr,
  Bool-cases, All, All-append, All-delete, filter, delete_where,
}
use keidai.Runs.{FollowUp}
use keidai.Runs.FollowUps.{comes_before, insert_by, order_by}

module _ (id_before : String → String → Bool) where
  abbrev pub IsOrdered : List FollowUp → Type 0
  IsOrdered [] = Unit
  IsOrdered (f ∷ fs) = All (λ g. comes_before id_before f g ≡ true) fs × IsOrdered fs

  pub IsOrdered-append :
      (fs : List FollowUp) (f : FollowUp) (last : ℕ)
      → IsOrdered fs
      → All (λ g. g.created_at ≤ last) fs
      → last < f.created_at
      → IsOrdered (fs ++ f ∷ [])
  IsOrdered-append [] f last h k lt = (tt, tt)
  IsOrdered-append (g ∷ fs) f last (a, h) (le, k) lt = (
    All-append (λ x. comes_before id_before g x ≡ true) fs (f ∷ []) a (ground (arith, le, lt), tt),
    IsOrdered-append fs f last h k lt,
  )

  pub IsOrdered-delete :
      (fs : List FollowUp) (d : FollowUp → Bool) → IsOrdered fs → IsOrdered (delete_where d fs)
  IsOrdered-delete [] d h = tt
  IsOrdered-delete (f ∷ fs) d (a, h) = elim (Bool-cases (d f)) [
    | inl e ↦ ground (arith, e, IsOrdered-delete fs d h)
    | inr e ↦ ground (
      arith,
      e,
      IsOrdered-delete fs d h,
      All-delete (λ g. comes_before id_before f g ≡ true) d fs a,
    )
  ]

  insert_by-first :
      (f : FollowUp) (fs : List FollowUp)
      → All (λ g. comes_before id_before f g ≡ true) fs
      → insert_by id_before f fs ≡ f ∷ fs
  unfolding insert_by
  insert_by-first f [] h = refl
  insert_by-first f (g ∷ gs) (e, h) = ground (arith, e)

  All-filter :
      (P : FollowUp → Type 0) (p : FollowUp → Bool) (fs : List FollowUp)
      → All P fs
      → All P (filter p fs)
  All-filter P p [] h = tt
  All-filter P p (f ∷ fs) (a, h) = elim (Bool-cases (p f)) [
    | inl e ↦ ground (arith, e, a, All-filter P p fs h)
    | inr e ↦ ground (arith, e, All-filter P p fs h)
  ]

  pub filter-IsOrdered :
      (p : FollowUp → Bool) (fs : List FollowUp) → IsOrdered fs → IsOrdered (filter p fs)
  filter-IsOrdered p [] h = tt
  filter-IsOrdered p (f ∷ fs) (a, h) = elim (Bool-cases (p f)) [
    | inl e ↦ ground (
      arith,
      e,
      All-filter (λ g. comes_before id_before f g ≡ true) p fs a,
      filter-IsOrdered p fs h,
    )
    | inr e ↦ ground (arith, e, filter-IsOrdered p fs h)
  ]

  pub order_by-ordered : (fs : List FollowUp) → IsOrdered fs → order_by id_before fs ≡ fs
  unfolding order_by
  order_by-ordered [] h = refl
  order_by-ordered (f ∷ fs) (a, h) =
      ap (insert_by id_before f) (order_by-ordered fs h) ∙ insert_by-first f fs a

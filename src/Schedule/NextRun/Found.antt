-- ===== src/Schedule/NextRun/Found.antt =====
-- The occurrence that nextRunAt finds (packages/shared/src/next-run-at.ts).
use keidai.Common.{
  ℕ, suc, ◌≡◌, ◌⊎◌, arith, Bool, true, false, String, Option, some, Bool-cases, inl, inr,
}
use keidai.Schedule.Civil.{CivilDateTime}
use keidai.Schedule.NextRun.{
  ZoneParts, Search, is_eligible, matches_recurrence, next_cursor, format_local_date_time,
  zoned_local_to_utc, find_occurrence,
}

module _ (format_to_parts : String → ℕ → ZoneParts) where
  abbrev pub search_instant : Search format_to_parts → CivilDateTime → Option ℕ
  search_instant q c = zoned_local_to_utc format_to_parts (format_local_date_time c) q.zone

  abbrev pub matches : Search format_to_parts → CivilDateTime → Bool
  matches q c = matches_recurrence c q.at_civil.day (some q.recurrence)

  abbrev pub eligible : Search format_to_parts → ℕ → Bool
  eligible q i = is_eligible i q.from q.at_utc q.after

  -- The first date, from a given one on, that the recurrence takes in and whose instant may be used.
  pub data FirstOccurrence (q : Search format_to_parts) : CivilDateTime → ℕ → Type 0 where
    here :
        {c : CivilDateTime} {i : ℕ}
        → matches q c ≡ true
        → search_instant q c ≡ some i
        → eligible q i ≡ true
        → FirstOccurrence q c i
    later :
        {c : CivilDateTime} {i : ℕ}
        → (matches q c ≡ false) ⊎ ((j : ℕ) × (search_instant q c ≡ some j) × (eligible q j ≡ false))
        → FirstOccurrence q (next_cursor q.at_civil c) i
        → FirstOccurrence q c i

  abbrev pub Finds : ℕ → Search format_to_parts → CivilDateTime → Type 0
  Finds k q c =
      (i : ℕ) × (find_occurrence format_to_parts k q c ≡ some (some i)) × FirstOccurrence q c i

  -- A round of the loop whose date has an instant.
  pub find-here :
      (k : ℕ) (q : Search format_to_parts) (c : CivilDateTime) (i : ℕ)
      → search_instant q c ≡ some i
      → matches q c ≡ true
      → eligible q i ≡ true
      → Finds (suc k) q c
  unfolding find_occurrence
  find-here k q c i e m ok = (i, ground (arith, e, m, ok), here m e ok)

  pub find-later :
      (k : ℕ) (q : Search format_to_parts) (c : CivilDateTime) (i : ℕ)
      → search_instant q c ≡ some i
      → Finds k q (next_cursor q.at_civil c)
      → Finds (suc k) q c
  unfolding find_occurrence
  find-later k q c i e (j, found, first) = elim (Bool-cases (matches q c)) [
    | inl m ↦ elim (Bool-cases (eligible q i)) [
      | inl use_it ↦ find-here k q c i e m use_it
      | inr skip ↦ (j, ground (arith, e, m, skip, found), later (inr (i, e, skip)) first)
    ]
    | inr m ↦ (j, ground (arith, e, m, found), later (inl m) first)
  ]

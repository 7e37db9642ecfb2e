-- ===== src/Schedule/NextRun/Same.antt =====
-- Triggers that taskTriggersEqual of packages/shared/src/task.ts takes for equal.
use keidai.Common.{
  ℕ, zero, suc, ◌≤◌, ◌≡◌, ◌≢◌, refl, sym, ap, ◌∙◌, subst, arith, Bool, true, false, not, ◌&&◌,
  String, Option, none, some, List, [], ◌∷◌, length, all, any, eq_iff, if◌then◌else◌, ◌==◌,
  Bool-cases, inl, inr,
}
use keidai.Schedule.{
  weekday_index, TaskTrigger, now, schedule, ScheduleTrigger, ScheduleRecurrence, daily, weekly,
  monthly, is_paused, recurrence_equal, task_triggers_equal, same_flag,
}
use mathlib.Core.Path.{fun_ext}
use keidai.Schedule.Civil.{CivilDateTime, weekday_of_civil_date}
use keidai.Schedule.NextRun.{
  ZoneParts, Search, matches_recurrence, next_cursor, is_eligible, zoned_local_to_utc,
  format_local_date_time, codes, parse_local_date_time, start_cursor, first_run, find_occurrence,
  next_run_at, max_rounds,
}

-- Lists without duplicates, by a key.
module _ {A : Type 0} (key : A → ℕ) where
  abbrev pub has_key : List A → A → Bool
  has_key xs a = any (λ x. key x == key a) xs

  abbrev pub no_duplicates : List A → Bool
  no_duplicates [] = true
  no_duplicates (x ∷ xs) = not (has_key xs x) && no_duplicates xs

  remove : A → List A → List A
  remove a [] = []
  remove a (x ∷ xs) = let rest = remove a xs in if key x == key a then xs else x ∷ rest

  length-remove :
      (a : A) (xs : List A) → has_key xs a ≡ true → length xs ≡ suc (length (remove a xs))
  unfolding remove
  length-remove a [] h = cc
  length-remove a (x ∷ xs) h = ground (arith, length-remove a xs)

  has-remove :
      (a b : A) (xs : List A) → key a ≢ key b → has_key xs b ≡ true → has_key (remove a xs) b ≡ true
  unfolding remove
  has-remove a b [] n h = cc
  has-remove a b (x ∷ xs) n h = ground (arith, has-remove a b xs n)

  all-remove :
      (a : A) (xs ys : List A)
      → has_key xs a ≡ false
      → all (has_key ys) xs ≡ true
      → all (has_key (remove a ys)) xs ≡ true
  all-remove a [] ys n h = refl
  all-remove a (x ∷ xs) ys n h =
      ground (arith, has-remove a x ys (ground (arith, n)), all-remove a xs ys)

  -- Distinct elements that are among others are no more than those.
  length-le :
      (xs ys : List A)
      → no_duplicates xs ≡ true
      → all (has_key ys) xs ≡ true
      → length xs ≤ length ys
  length-le [] ys d h = omega arith
  length-le (x ∷ xs) ys d h =
      ground (arith, length-remove x ys, length-le xs (remove x ys), all-remove x xs ys)

  all-has :
      (xs ys : List A) (a : A)
      → all (has_key ys) xs ≡ true
      → has_key xs a ≡ true
      → has_key ys a ≡ true
  all-has [] ys a h m = cc
  all-has (x ∷ xs) ys a h m = elim (Bool-cases (key x == key a)) [
    | inl e ↦
        let same : key x ≡ key a = ground (arith, e) in
        subst (λ k. any (λ y. key y == k) ys ≡ true) same (ground (arith, h))
    | inr e ↦ all-has xs ys a (ground (arith, h)) (ground (arith, e, m))
  ]

  -- As many, all of them there: then the same.
  pub has-same :
      (xs ys : List A) (a : A)
      → no_duplicates xs ≡ true
      → length xs ≡ length ys
      → all (has_key ys) xs ≡ true
      → has_key xs a ≡ has_key ys a
  has-same xs ys a d len h = elim (Bool-cases (has_key xs a)) [
    | inl e ↦ ground (arith, e, all-has xs ys a h e)
    | inr e ↦ elim (Bool-cases (has_key ys a)) [
      | inl m ↦ absurd (ground (arith, length-le (a ∷ xs) ys, e, m, d, h, len))
      | inr m ↦ ground (arith, e, m)
    ]
  ]

-- No weekday twice, as the schema of a recurrence asks.
abbrev pub IsProper : Option ScheduleRecurrence → Type 0
IsProper (some (weekly days)) = no_duplicates weekday_index days ≡ true
IsProper _ = Unit

test_lem : (a b : ℕ) → (a == b) ≡ true → a ≡ b
test_lem a b h = ground (arith, h)

unless_false : (b c : Bool) → (if not b then false else c) ≡ true → (b ≡ true) × (c ≡ true)
unless_false true c h = (refl, h)
unless_false false c h = cc

recurrence_equal-matches :
    (left right : ScheduleRecurrence) (c : CivilDateTime) (at_day : ℕ)
    → IsProper (some left)
    → recurrence_equal (some left) (some right) ≡ true
    → matches_recurrence c at_day (some left) ≡ matches_recurrence c at_day (some right)
unfolding recurrence_equal matches_recurrence
recurrence_equal-matches daily daily c at_day p h = refl
recurrence_equal-matches daily (weekly days) c at_day p h = cc
recurrence_equal-matches daily monthly c at_day p h = cc
recurrence_equal-matches (weekly days) daily c at_day p h = cc
recurrence_equal-matches (weekly left) (weekly right) c at_day p h =
    has-same weekday_index left right (weekday_of_civil_date c) p
      (test_lem (length left) (length right) (unless_false (length left == length right) _ h).0)
      (unless_false (length left == length right) _ h).1
recurrence_equal-matches (weekly days) monthly c at_day p h = cc
recurrence_equal-matches monthly daily c at_day p h = cc
recurrence_equal-matches monthly (weekly days) c at_day p h = cc
recurrence_equal-matches monthly monthly c at_day p h = refl

no_now : (r : ScheduleTrigger) → ¬ (task_triggers_equal now (schedule r) ≡ true)
unfolding task_triggers_equal
no_now r h = cc

no_schedule : (l : ScheduleTrigger) → ¬ (task_triggers_equal (schedule l) now ≡ true)
unfolding task_triggers_equal
no_schedule l h = cc

same_flag_eq : (a b : Bool) → same_flag a b ≡ true → a ≡ b
same_flag_eq true b h = sym h
same_flag_eq false true h = cc
same_flag_eq false false h = refl

equal_fields :
    (l r : ScheduleTrigger)
    → task_triggers_equal (schedule l) (schedule r) ≡ true
    → (l.timezone ≡ r.timezone)
      × (l.at ≡ r.at)
      × (is_paused l ≡ is_paused r)
      × (recurrence_equal l.recurrence r.recurrence ≡ true)
unfolding task_triggers_equal
equal_fields l r h = (
  ground (arith, h, eq_iff l.timezone r.timezone),
  ground (arith, h, eq_iff l.at r.at),
  same_flag_eq (is_paused l) (is_paused r) (ground (arith, h)),
  ground (arith, h),
)

module _ (format_to_parts : String → ℕ → ZoneParts) where
  abbrev with_recurrence : ScheduleRecurrence → Search format_to_parts → Search format_to_parts
  with_recurrence r q = record q { recurrence = r }

  find-same :
      (k : ℕ) (q : Search format_to_parts) (r : ScheduleRecurrence) (c : CivilDateTime)
      → ((c : CivilDateTime)
          → matches_recurrence c q.at_civil.day (some q.recurrence)
            ≡ matches_recurrence c q.at_civil.day (some r))
      → find_occurrence format_to_parts k q c
        ≡ find_occurrence format_to_parts k (with_recurrence r q) c
  unfolding find_occurrence
  find-same zero q r c h = refl
  find-same (suc k) q r c h =
      let round : Bool → Option (Option ℕ) → Option (Option ℕ) = λ takes rest.
        if takes
        then elim (zoned_local_to_utc format_to_parts (format_local_date_time c) q.zone) [
          | none ↦ none
          | some instant ↦
              if is_eligible instant q.from q.at_utc q.after then some (some instant) else rest
        ]
        else rest in
      let rest = find_occurrence format_to_parts k q (next_cursor q.at_civil c) in
      ap (λ takes. round takes rest) (h c)
      ∙ ap (round (matches_recurrence c q.at_civil.day (some r)))
          (find-same k q r (next_cursor q.at_civil c) h)

  first_run-same :
      (left right : Option ScheduleRecurrence) (at : CivilDateTime) (at_utc from : ℕ) (after : Bool)
      (zone : String)
      → IsProper left
      → recurrence_equal left right ≡ true
      → first_run format_to_parts left at at_utc from after zone
        ≡ first_run format_to_parts right at at_utc from after zone
  unfolding first_run recurrence_equal
  first_run-same none none at at_utc from after zone p h = refl
  first_run-same none (some r) at at_utc from after zone p h = cc
  first_run-same (some l) none at at_utc from after zone p h = cc
  first_run-same (some l) (some r) at at_utc from after zone p h =
      find-same max_rounds
        (record {
          at_civil = at;
          at_utc = at_utc;
          from = from;
          after = after;
          zone = zone;
          recurrence = l;
        })
        r (start_cursor format_to_parts at at_utc from zone)
        (λ c. recurrence_equal-matches l r c at.day p h)

  -- nextRunAt of a schedule with these fields.
  abbrev run_of : Bool → String → String → Option ScheduleRecurrence → ℕ → Bool → Option (Option ℕ)
  run_of paused at zone recurrence from after =
      next_run_at format_to_parts
        (schedule
          (record { timezone = zone; at = at; recurrence = recurrence; paused = some paused }))
        from after

  run_of_fields :
      (t : ScheduleTrigger) (from : ℕ) (after : Bool)
      → next_run_at format_to_parts (schedule t) from after
        ≡ run_of (is_paused t) t.at t.timezone t.recurrence from after
  unfolding next_run_at
  run_of_fields t from after = refl

  run_of-same :
      (paused : Bool) (at zone : String) (left right : Option ScheduleRecurrence) (from : ℕ)
      (after : Bool)
      → IsProper left
      → recurrence_equal left right ≡ true
      → run_of paused at zone left from after ≡ run_of paused at zone right from after
  unfolding next_run_at
  run_of-same paused at zone left right from after p h =
      let body : (CivilDateTime → ℕ → Option (Option ℕ)) → Option (Option ℕ) = λ run.
        if paused then some none else elim (parse_local_date_time (codes at)) [
          | none ↦ none
          | some civil ↦ elim (zoned_local_to_utc format_to_parts (codes at) zone) [
            | none ↦ none
            | some at_utc ↦ run civil at_utc
          ]
        ] in
      ap body (
        fun_ext
          (λ civil. fun_ext (λ at_utc. first_run-same left right civil at_utc from after zone p h)))

  abbrev pub IsProperTrigger : TaskTrigger → Type 0
  IsProperTrigger now = Unit
  IsProperTrigger (schedule t) = IsProper t.recurrence

  -- Of two triggers that taskTriggersEqual takes for equal, where the first names no weekday twice, the
  -- next runs are the same, from any time.
  pub task_triggers_equal-next :
      (left right : TaskTrigger) (from : ℕ) (after : Bool)
      → IsProperTrigger left
      → task_triggers_equal left right ≡ true
      → next_run_at format_to_parts left from after ≡ next_run_at format_to_parts right from after
  task_triggers_equal-next now now from after p h = refl
  task_triggers_equal-next now (schedule r) from after p h = absurd (no_now r h)
  task_triggers_equal-next (schedule l) now from after p h = absurd (no_schedule l h)
  task_triggers_equal-next (schedule l) (schedule r) from after p h =
      let (zone, at, paused, same) = equal_fields l r h in
      run_of_fields l from after
      ∙ run_of-same (is_paused l) l.at l.timezone l.recurrence r.recurrence from after p same
      ∙ ap (λ b. run_of b l.at l.timezone r.recurrence from after) paused
      ∙ ap (λ a. run_of (is_paused r) a l.timezone r.recurrence from after) at
      ∙ ap (λ z. run_of (is_paused r) r.at z r.recurrence from after) zone
      ∙ sym (run_of_fields r from after)

-- ===== src/Tasks/Answers.antt =====
-- What the responses of an agent do to the outstanding requests of its task
-- (`applyInputResponses` of apps/torii/src/tasks/task-store.service.ts).
use keidai.Common.{
  String, eq_iff, ◌≡◌, refl, ap, inl, inr, true, not, ◌||◌, List, [], ◌∷◌, ◌++◌, arith, Elem,
  IsDisjoint, includes, includes_iff, delete_where, Bool-cases, All-at,
}
use keidai.Tasks.Inputs.{Requests, keys, in_object, remove_key, apply_responses}
use keidai.Tasks.Invariant.{keys-remove}

-- The requests that a list of responses leaves.
abbrev pub unanswered : List String → Requests → Requests
unanswered responses rs = delete_where (λ r. includes responses r.0) rs

unanswered-remove :
    (key : String) (responses : List String) (rs : Requests)
    → unanswered responses (remove_key key rs) ≡ unanswered (key ∷ responses) rs
unanswered-remove key responses [] = refl
unanswered-remove key responses ((k, v) ∷ rs) =
    ground (arith, unanswered-remove key responses rs, eq_iff k key, eq_iff key k)

unanswered-absent :
    (key : String) (responses : List String) (rs : Requests)
    → ¬ Elem key (keys rs)
    → unanswered responses rs ≡ unanswered (key ∷ responses) rs
unanswered-absent key responses [] h = refl
unanswered-absent key responses ((k, v) ∷ rs) h =
    ground (arith, unanswered-absent key responses rs, eq_iff key k)

unanswered-nil : (rs : Requests) → rs ≡ unanswered [] rs
unanswered-nil [] = refl
unanswered-nil (r ∷ rs) = ap (λ l. r ∷ l) (unanswered-nil rs)

not-Elem-used :
    (key : String) (rs : Requests) (used : List String)
    → IsDisjoint (keys rs) used
    → includes used key ≡ true
    → ¬ Elem key (keys rs)
not-Elem-used key rs used h u m =
    All-at (λ k. ¬ Elem k used) key (keys rs) h m ((includes_iff used key).0 u)

skip-absent :
    (key : String) (rs : Requests) (used : List String)
    → IsDisjoint (keys rs) used
    → (not (in_object key rs) || includes used key) ≡ true
    → ¬ Elem key (keys rs)
unfolding in_object
skip-absent key rs used h skip = elim (Bool-cases (includes used key)) [
  | inl u ↦ not-Elem-used key rs used h u
  | inr n ↦ λ m. ground (arith, n, skip, (includes_iff (keys rs) key).1 m)
]

-- Where no outstanding key was answered before, the requests that stay outstanding are exactly
-- those whose key is not among the responses, in their order.
pub apply_responses-unanswered :
    (responses : List String) (rs : Requests) (used : List String)
    → IsDisjoint (keys rs) used
    → (apply_responses responses rs used).0 ≡ unanswered responses rs
unfolding apply_responses
apply_responses-unanswered [] rs used h = unanswered-nil rs
apply_responses-unanswered (key ∷ responses) rs used h =
    elim (Bool-cases (not (in_object key rs) || includes used key)) [
      | inl skip ↦ ground (
        arith,
        skip,
        apply_responses-unanswered responses rs used h,
        unanswered-absent key responses rs (skip-absent key rs used h skip),
      )
      | inr done ↦ ground (
        arith,
        done,
        apply_responses-unanswered responses (remove_key key rs) (used ++ key ∷ [])
            (keys-remove key rs used h),
        unanswered-remove key responses rs,
      )
    ]

-- ===== src/Run/Pending/Laws.antt =====
-- Which calls are unanswered, and that closing a history answers them all.
use keidai.Common.{
  String, ◌≡◌, ◌↔◌, ◌⊎◌, All, refl, sym, ap, ◌∙◌, inl, inr, true, false, not, none, some, List, [],
  ◌∷◌, ◌++◌, map, arith, includes, includes_iff, filter, Elem, Elem-map, ◌||◌, Option-cases,
  Bool-cases,
}
use keidai.Run.{ModelToolCall, ConversationEntry, user, assistant, tool}
use keidai.Run.Pending.{
  answered_ids, last_calls, find_unanswered_tool_calls, stopped_result, close_unanswered_tool_calls,
}

answered_ids-close :
    (history : List ConversationEntry) (calls : List ModelToolCall)
    → answered_ids (history ++ map stopped_result calls)
      ≡ answered_ids history ++ map (λ call. call.tool_call_id) calls
unfolding answered_ids
answered_ids-close [] [] = refl
answered_ids-close [] (call ∷ calls) = ap (λ l. call.tool_call_id ∷ l) (answered_ids-close [] calls)
answered_ids-close (user text ∷ rest) calls = answered_ids-close rest calls
answered_ids-close (assistant text cs ∷ rest) calls = answered_ids-close rest calls
answered_ids-close (tool id name output is_error ∷ rest) calls =
    ap (λ l. id ∷ l) (answered_ids-close rest calls)

last_calls-results : (calls : List ModelToolCall) → last_calls (map stopped_result calls) ≡ none
unfolding last_calls
last_calls-results [] = refl
last_calls-results (call ∷ calls) = ground (arith, last_calls-results calls)

last_calls-close :
    (history : List ConversationEntry) (calls : List ModelToolCall)
    → last_calls (history ++ map stopped_result calls) ≡ last_calls history
unfolding last_calls
last_calls-close [] calls = last_calls-results calls
last_calls-close (entry ∷ rest) calls = ground (arith, last_calls-close rest calls)

includes-append :
    (x : String) (xs ys : List String) → includes (xs ++ ys) x ≡ (includes xs x || includes ys x)
includes-append x [] ys = refl
includes-append x (y ∷ xs) ys = ground (arith, includes-append x xs ys)

abbrev ids : List ModelToolCall → List String
ids calls = map (λ call. call.tool_call_id) calls

abbrev open_calls : List String → List ModelToolCall → List ModelToolCall
open_calls done calls = filter (λ call. not (includes done call.tool_call_id)) calls

Elem-open_calls :
    (done : List String) (call : ModelToolCall) (calls : List ModelToolCall)
    → Elem call calls
    → includes done call.tool_call_id ≡ false
    → Elem call (open_calls done calls)
Elem-open_calls done call [] m h = absurd m
Elem-open_calls done call (c ∷ calls) (inl e) h =
    ground (arith, h, ap (λ (k : ModelToolCall). k.tool_call_id) e, e)
Elem-open_calls done call (c ∷ calls) (inr m) h =
    let later = Elem-open_calls done call calls m h in
    elim (Bool-cases (includes done c.tool_call_id)) [
      | inl t ↦ ground (arith, t, later)
      | inr f ↦ ground (arith, f, later)
    ]

answered_after :
    (done : List String) (call : ModelToolCall) (calls : List ModelToolCall)
    → Elem call calls
    → includes (done ++ ids (open_calls done calls)) call.tool_call_id ≡ true
answered_after done call calls m =
    let split = includes-append call.tool_call_id done (ids (open_calls done calls)) in
    elim (Bool-cases (includes done call.tool_call_id)) [
      | inl t ↦ ground (arith, split, t)
      | inr f ↦
          let here = (includes_iff (ids (open_calls done calls)) call.tool_call_id).1 (
            Elem-map (λ (k : ModelToolCall). k.tool_call_id) call (open_calls done calls)
              (Elem-open_calls done call calls m f)) in
          ground (arith, split, f, here)
    ]

none_open :
    (done : List String) (calls : List ModelToolCall)
    → ((call : ModelToolCall) → Elem call calls → includes done call.tool_call_id ≡ true)
    → open_calls done calls ≡ []
none_open done [] h = refl
none_open done (call ∷ calls) h =
    ground (arith, h call (inl refl), none_open done calls (λ c m. h c (inr m)))

find_unanswered-some :
    (history : List ConversationEntry) (calls : List ModelToolCall)
    → last_calls history ≡ some calls
    → find_unanswered_tool_calls history ≡ open_calls (answered_ids history) calls
unfolding find_unanswered_tool_calls
find_unanswered-some history calls e = ground (arith, e)

find_unanswered-none :
    (history : List ConversationEntry)
    → last_calls history ≡ none
    → find_unanswered_tool_calls history ≡ []
unfolding find_unanswered_tool_calls
find_unanswered-none history e = ground (arith, e)

-- Closing a history leaves no call of its last assistant turn without a result.
pub find_unanswered-close :
    (history : List ConversationEntry)
    → find_unanswered_tool_calls (close_unanswered_tool_calls history) ≡ []
unfolding close_unanswered_tool_calls
find_unanswered-close history =
    let made = find_unanswered_tool_calls history in
    let closed = history ++ map stopped_result made in
    elim (Option-cases (last_calls history)) [
      | inl e ↦ find_unanswered-none closed (last_calls-close history made ∙ e)
      | inr (calls, e) ↦
          let done = answered_ids history in
          find_unanswered-some closed calls (last_calls-close history made ∙ e)
          ∙ ap (λ d. open_calls d calls)
              (answered_ids-close history made
                ∙ ap (λ u. done ++ ids u) (find_unanswered-some history calls e))
          ∙ none_open (done ++ ids (open_calls done calls)) calls
              (λ call m. answered_after done call calls m)
    ]

Elem-open_calls_iff :
    (done : List String) (call : ModelToolCall) (calls : List ModelToolCall)
    → Elem call (open_calls done calls)
      ↔ (Elem call calls × (includes done call.tool_call_id ≡ false))
Elem-open_calls_iff done call [] = ((λ h. absurd h), (λ h. h.0))
Elem-open_calls_iff done call (c ∷ calls) =
    let later = Elem-open_calls_iff done call calls in
    (
      (λ m. elim (Bool-cases (includes done c.tool_call_id)) [
        | inl t ↦ ground (arith, t, m, later)
        | inr f ↦
            let m' : (c ≡ call) ⊎ Elem call (open_calls done calls) = ground (arith, f, m) in
            elim m' [
              | inl e ↦
                  (inl e, sym (ap (λ (k : ModelToolCall). includes done k.tool_call_id) e) ∙ f)
              | inr k ↦ (inr (later.0 k).0, (later.0 k).1)
            ]
      ]),
      λ (m, h). Elem-open_calls done call (c ∷ calls) m h,
    )

abbrev pub IsNotAssistant : ConversationEntry → Type 0
IsNotAssistant (user text) = Unit
IsNotAssistant (assistant text calls) = ⊥
IsNotAssistant (tool id name output is_error) = Unit

-- `calls` are those of an assistant entry that no assistant entry follows.
abbrev pub IsLastTurn : List ModelToolCall → List ConversationEntry → Type 0
IsLastTurn calls [] = ⊥
IsLastTurn calls (entry ∷ rest) =
    ((text : String) × (entry ≡ assistant text calls) × All IsNotAssistant rest)
    ⊎ IsLastTurn calls rest

last_calls-none_iff :
    (history : List ConversationEntry) → (last_calls history ≡ none) ↔ All IsNotAssistant history
unfolding last_calls
last_calls-none_iff [] = ((λ _. tt), (λ _. refl))
last_calls-none_iff (user text ∷ rest) = ground (arith, last_calls-none_iff rest)
last_calls-none_iff (assistant text calls ∷ rest) = ground (arith, last_calls-none_iff rest)
last_calls-none_iff (tool id name output is_error ∷ rest) = ground (arith, last_calls-none_iff rest)

last_calls-some_iff :
    (calls : List ModelToolCall) (history : List ConversationEntry)
    → (last_calls history ≡ some calls) ↔ IsLastTurn calls history
unfolding last_calls
last_calls-some_iff calls [] = ((λ h. cc), (λ h. absurd h))
last_calls-some_iff calls (user text ∷ rest) = (
  (λ e. elim (Option-cases (last_calls rest)) [
    | inl n ↦ absurd (ground (arith, e, n))
    | inr (cs, f) ↦ inr ((last_calls-some_iff calls rest).0 (ground (arith, e, f)))
  ]),
  λ m. elim m [ inl (t, e, _) ↦ cc | inr k ↦ ground (arith, (last_calls-some_iff calls rest).1 k) ],
)
last_calls-some_iff calls (tool id name output is_error ∷ rest) = (
  (λ e. elim (Option-cases (last_calls rest)) [
    | inl n ↦ absurd (ground (arith, e, n))
    | inr (cs, f) ↦ inr ((last_calls-some_iff calls rest).0 (ground (arith, e, f)))
  ]),
  λ m. elim m [ inl (t, e, _) ↦ cc | inr k ↦ ground (arith, (last_calls-some_iff calls rest).1 k) ],
)
last_calls-some_iff calls (assistant text own ∷ rest) = (
  (λ e. elim (Option-cases (last_calls rest)) [
    | inl n ↦ inl (text, ground (arith, e, n), (last_calls-none_iff rest).0 n)
    | inr (cs, f) ↦ inr ((last_calls-some_iff calls rest).0 (ground (arith, e, f)))
  ]),
  λ m. elim m [
    | inl (t, e, k) ↦ ground (arith, e, (last_calls-none_iff rest).1 k)
    | inr k ↦ ground (arith, (last_calls-some_iff calls rest).1 k)
  ],
)

-- A call is unanswered exactly when it is one of the last assistant turn and no tool result of the
-- history has its id.
pub find_unanswered-Elem_iff :
    (history : List ConversationEntry) (call : ModelToolCall)
    → Elem call (find_unanswered_tool_calls history) ↔ (
        (calls : List ModelToolCall) × IsLastTurn calls history
        × Elem call calls
        × (¬ Elem call.tool_call_id (answered_ids history)))
unfolding find_unanswered_tool_calls
find_unanswered-Elem_iff history call =
    let done = answered_ids history in
    let settled = includes_iff done call.tool_call_id in
    (
      (λ m. elim (Option-cases (last_calls history)) [
        | inl n ↦ absurd (ground (arith, m, n))
        | inr (calls, e) ↦
            let (a, b) = (Elem-open_calls_iff done call calls).0 (ground (arith, m, e)) in
            (calls, (last_calls-some_iff calls history).0 e, a, λ k. ground (arith, b, settled.1 k))
      ]),
      λ (calls, turn, m, n).
          let listed =
            Elem-open_calls done call calls m (elim (Bool-cases (includes done call.tool_call_id)) [
              | inl t ↦ absurd (n (settled.0 t))
              | inr f ↦ f
            ]) in
          ground (arith, (last_calls-some_iff calls history).1 turn, listed),
    )

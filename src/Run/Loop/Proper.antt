-- ===== src/Run/Loop/Proper.antt =====
-- Within a tool call: what every way out of it guarantees of the run's result.
use keidai.Common.{
  ℕ, zero, suc, String, ◌≡◌, ◌≢◌, ◌⊎◌, refl, sym, ◌∙◌, subst, inl, inr, Bool, true, false, Option,
  none, some, List, [], ◌∷◌, arith, if◌then◌else◌, All, Option-cases, Bool-cases,
}
use keidai.Run.{ModelToolCall, ConversationEntry}
use keidai.Run.Pending.{find_unanswered_tool_calls}
use keidai.Run.Pending.Laws.{find_unanswered-close}
use keidai.Run.Pending.Users.{IsUser, find_unanswered-users}
use keidai.Run.Assessment.{TerminationOutcome, stopped}
use keidai.Run.Loop.{
  Answer, returns, throws, ToolDispatchResult, ApprovalWaitContext, TaskLoopDeps, TaskLoopResult,
  State, ended, and_then, pause_active_clock, resume_active_clock, drain_pending_user_messages,
  terminate, stop_now, wait_for_parked_result, checkpoint, after_wait, live_wait, await_approval,
  resolve_tool_result, Turn, settle_call, dispatch_call,
}

-- What holds of the value, if there is one.
abbrev pub Holds : {A : Type 0} → (A → Type 0) → Option A → Type 0
Holds P none = Unit
Holds P (some a) = P a

pub Holds-then :
    {A B : Type 0} (P : A → Type 0) (Q : B → Type 0) (f : A → Option B) (o : Option A)
    → Holds P o
    → ((a : A) → P a → Holds Q (f a))
    → Holds Q (and_then o f)
Holds-then P Q f none h k = tt
Holds-then P Q f (some a) h k = k a h

pub both : {A : Type 0} (P : A → Type 0) (b : Bool) {x y : A} → P x → P y → P (if b then x else y)
both P true h k = h
both P false h k = k

pub unless :
    {A : Type 0} (P : A → Type 0) (b : Bool) (x : A) {y : A}
    → b ≡ false
    → P y
    → P (if b then x else y)
unless P true x e h = cc
unless P false x e h = h

pub Holds-eq : {A : Type 0} (P : A → Type 0) (o o' : Option A) → o ≡ o' → Holds P o' → Holds P o
Holds-eq P o o' e h = subst (Holds P) (sym e) h

pub answer-cases :
    {A : Type 0} (a : Answer A)
    → ((error : String) × (a ≡ throws error)) ⊎ ((x : A) × (a ≡ returns x))
answer-cases (throws error) = inl (error, refl)
answer-cases (returns x) = inr (x, refl)

-- What is promised of a result: a number of iterations that fits, and no open call when stopped.
pub record IsProper (fits : ℕ → Type 0) (r : TaskLoopResult) : Type 0 where
  pub within : fits r.iterations
  pub closed : r.outcome ≡ ended stopped → find_unanswered_tool_calls r.history ≡ []

module _ (W : Type 0) (deps : TaskLoopDeps W)
    (users : (w : W) → All IsUser (deps.drain_pending_user_messages w).0) where
  drain-answered :
      (s : State W) (pending : List ConversationEntry)
      → (deps.drain_pending_user_messages s.world).0 ≡ pending
      → find_unanswered_tool_calls (drain_pending_user_messages W deps false s).history
        ≡ find_unanswered_tool_calls s.history
  unfolding drain_pending_user_messages
  drain-answered s [] e = ground (arith, e)
  drain-answered s (entry ∷ entries) e =
      let h =
        find_unanswered-users s.history (entry ∷ entries) (subst (All IsUser) e (users s.world)) in
      ground (arith, e, h)

  drained-iterations :
      (s : State W) (pending : List ConversationEntry)
      → (deps.drain_pending_user_messages s.world).0 ≡ pending
      → (drain_pending_user_messages W deps false s).iterations_used ≡ s.iterations_used
  unfolding drain_pending_user_messages
  drained-iterations s [] e = ground (arith, e)
  drained-iterations s (entry ∷ entries) e = ground (arith, e)

  pub drain-iterations :
      (s : State W)
      → (drain_pending_user_messages W deps false s).iterations_used ≡ s.iterations_used
  drain-iterations s = drained-iterations s (deps.drain_pending_user_messages s.world).0 refl

  pub terminate-IsProper :
      (fits : ℕ → Type 0) (iterations : ℕ) (outcome : TerminationOutcome) (s : State W)
      → outcome ≢ stopped
      → fits iterations
      → IsProper fits (terminate W deps outcome iterations s).0
  unfolding terminate
  terminate-IsProper fits iterations outcome s n h = record {
    within = h;
    closed = λ e. absurd (n (ground (arith, e)));
  }

  pub terminate-answered :
      (outcome : TerminationOutcome) (iterations : ℕ) (s : State W)
      → find_unanswered_tool_calls (terminate W deps outcome iterations s).0.history
        ≡ find_unanswered_tool_calls s.history
  unfolding terminate
  terminate-answered outcome iterations s =
      drain-answered s (deps.drain_pending_user_messages s.world).0 refl

  pub stop_now-IsProper :
      (fits : ℕ → Type 0) (iterations : ℕ) (s : State W)
      → fits iterations
      → IsProper fits (stop_now W deps iterations s).0
  unfolding stop_now terminate
  stop_now-IsProper fits iterations s h = record {
    within = h;
    closed = λ _. drain-answered _ _ refl ∙ find_unanswered-close s.history;
  }

  pause-iterations :
      (s : State W) → (pause_active_clock W deps s).iterations_used ≡ s.iterations_used
  unfolding pause_active_clock
  pause-iterations s = elim (Bool-cases s.active_clock_paused) [
    | inl e ↦ ground (arith, e)
    | inr e ↦ ground (arith, e)
  ]

  resume-iterations :
      (s : State W) → (resume_active_clock W deps s).iterations_used ≡ s.iterations_used
  unfolding resume_active_clock
  resume-iterations s = elim (Bool-cases s.active_clock_paused) [
    | inl e ↦ ground (arith, e)
    | inr e ↦ ground (arith, e)
  ]

  pub wait-iterations :
      (call : ModelToolCall) (id : String) (context : ApprovalWaitContext) (s : State W)
      → (wait_for_parked_result W deps call id context s).1.iterations_used ≡ s.iterations_used
  unfolding wait_for_parked_result
  wait-iterations call id context s = elim (Option-cases deps.wait_for_approval) [
    | inl e ↦ ground (arith, e)
    | inr (wait, e) ↦
        let s' = checkpoint W deps (pause_active_clock W deps s) in
        let w = (wait id context call s'.world).1 in
        ground (arith, e, pause-iterations s, resume-iterations (record s' { world = w }))
  ]

  abbrev pub Keeps : ℕ → Answer ToolDispatchResult × State W → Type 0
  Keeps used r = r.1.iterations_used ≡ used

  after_wait-Keeps :
      (used : ℕ)
      (again : ToolDispatchResult → State W → Option (Answer ToolDispatchResult × State W))
      → ((r : ToolDispatchResult) (s : State W)
          → s.iterations_used ≡ used
          → Holds (Keeps used) (again r s))
      → (t : Answer ToolDispatchResult × State W) → Keeps used t
      → Holds (Keeps used) (after_wait W deps again t)
  after_wait-Keeps used again h (throws error, s) k = k
  after_wait-Keeps used again h (returns next, s) k =
      both (Holds (Keeps used)) next.hibernated k (h next s k)

  await_approval-Keeps :
      (parks used : ℕ) (call : ModelToolCall) (result : ToolDispatchResult) (s : State W)
      → s.iterations_used ≡ used
      → Holds (Keeps used) (await_approval W deps parks call result s)
  unfolding await_approval
  await_approval-Keeps zero used call result s k = elim (Option-cases result.approval_required) [
    | inl e ↦
        Holds-eq (Keeps used) (await_approval W deps zero call result s) (some (returns result, s))
          (ground (arith, e)) k
    | inr (required, e) ↦
        Holds-eq (Keeps used) (await_approval W deps zero call result s)
          (if deps.stop_requested s.world then some (returns result, s) else none)
          (ground (arith, e)) (both (Holds (Keeps used)) (deps.stop_requested s.world) k tt)
  ]
  await_approval-Keeps (suc parks) used call result s k =
      elim (Option-cases result.approval_required) [
        | inl e ↦
            Holds-eq (Keeps used) (await_approval W deps (suc parks) call result s)
              (some (returns result, s)) (ground (arith, e)) k
        | inr (required, e) ↦
            let waited =
              wait_for_parked_result W deps call required.approval_id (live_wait W deps required)
                s in
            let later = after_wait W deps (await_approval W deps parks call) waited in
            let kept =
              wait-iterations call required.approval_id (live_wait W deps required) s ∙ k in
            Holds-eq (Keeps used) (await_approval W deps (suc parks) call result s)
              (if deps.stop_requested s.world then some (returns result, s) else later)
              (ground (arith, e))
              (both (Holds (Keeps used)) (deps.stop_requested s.world) k (
                after_wait-Keeps used (await_approval W deps parks call)
                  (λ r t h. await_approval-Keeps parks used call r t h) waited kept))
      ]

  resolve-Keeps :
      (parks used : ℕ) (call : ModelToolCall) (s : State W)
      → s.iterations_used ≡ used
      → Holds (Keeps used) (resolve_tool_result W deps parks call s)
  unfolding resolve_tool_result
  resolve-Keeps parks used call s k = elim (answer-cases (deps.dispatch_tool_call call s.world).0) [
    | inl (error, e) ↦
        Holds-eq (Keeps used) (resolve_tool_result W deps parks call s)
          (some (throws error, record s { world = (deps.dispatch_tool_call call s.world).1 }))
          (ground (arith, e)) k
    | inr (result, e) ↦
        let s' = record s { world = (deps.dispatch_tool_call call s.world).1 } in
        Holds-eq (Keeps used) (resolve_tool_result W deps parks call s)
          (await_approval W deps parks call result s') (ground (arith, e))
          (await_approval-Keeps parks used call result s' k)
  ]

  -- What a turn guarantees: a proper result, or as many iterations as before.
  abbrev pub Post : (ℕ → Type 0) → ℕ → Turn W deps → Type 0
  Post fits used (some result, s) = IsProper fits result
  Post fits used (none, s) = s.iterations_used ≡ used

  pub settle_call-Post :
      (fits : ℕ → Type 0) (used iterations : ℕ) (call : ModelToolCall)
      (answer : Answer ToolDispatchResult) (s : State W)
      → fits iterations
      → s.iterations_used ≡ used
      → Post fits used (settle_call W deps call iterations answer s)
  unfolding settle_call
  settle_call-Post fits used iterations call (throws error) s h k =
      both (Post fits used) (deps.stop_requested s.world) (stop_now-IsProper fits iterations s h)
        (terminate-IsProper fits iterations _ _ (λ e. cc) h)
  settle_call-Post fits used iterations call (returns result) s h k =
      both (Post fits used) result.hibernated (record { within = h; closed = λ e. cc })
        (both (Post fits used) (deps.stop_requested s.world) (stop_now-IsProper fits iterations s h)
          (both (Post fits used) result.approval_denied
            (terminate-IsProper fits iterations _ _ (λ e. cc) h) k))

  pub dispatch_call-Post :
      (parks : ℕ) (fits : ℕ → Type 0) (used iterations : ℕ) (call : ModelToolCall) (s : State W)
      → fits iterations
      → s.iterations_used ≡ used
      → Holds (Post fits used) (dispatch_call W deps parks call iterations s)
  unfolding dispatch_call
  dispatch_call-Post parks fits used iterations call s h k =
      Holds-then (Keeps used) (Post fits used)
        (λ r. some (settle_call W deps call iterations r.0 r.1))
        (resolve_tool_result W deps parks call s) (resolve-Keeps parks used call s k)
        (λ r l. settle_call-Post fits used iterations call r.0 r.1 h l)

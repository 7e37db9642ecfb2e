-- ===== src/Harness/Looped.antt =====
-- The task loop of a worker (apps/shaiden/src/run), while another worker holds its run.
use keidai.Common.{ℕ, String, ◌≡◌, refl, Bool, false, List, [], ◌∷◌, ◌++◌, if_both}
use keidai.Run.{ConversationEntry}
use keidai.Run.Assessment.{TerminationOutcome}
use keidai.Run.Loop.{
  RunBudget, State, ended, current_active_elapsed, report_budget, push, resume_active_clock,
  drain_pending_user_messages, terminate,
}
use keidai.Runs.FollowUps.{drain_parked_follow_ups}
use keidai.Runs.Ops.{set_conversation_history, set_run_budget}
use keidai.Runs.Steps.{op_budget, op_history, apply_op}
use keidai.Harness.{HarnessState, HarnessDeps, statement}
use keidai.Harness.Drive.{DriveDeps, loop_deps}
use keidai.Harness.Leased.{IsLeased, KeepsLease, statement-IsLeased}

list_both :
    {A R : Type 0} (P : R → Type 0) (xs : List A) (f : R) (g : A → List A → R)
    → P f
    → ((x : A) (rest : List A) → P (g x rest))
    → P (elim xs [ [] ↦ f | x ∷ rest ↦ g x rest ])
list_both P [] f g h k = h
list_both P (x ∷ rest) f g h k = k x rest

module _ {W : Type 0} (deps : HarnessDeps W) (drive : DriveDeps W)
    (id_before : String → String → Bool) (run_id replica holder : String) (lease expires : ℕ)
    (others : KeepsLease run_id holder expires deps.meanwhile) where
  -- The loop's state, with the run held by the other worker in its world.
  abbrev Leased : State (HarnessState W) → Type 0
  Leased s = IsLeased run_id holder expires s.world

  elapsed-Leased :
      (s : State (HarnessState W))
      → Leased s
      → IsLeased run_id holder expires
          (current_active_elapsed
            (HarnessState W)
            (loop_deps deps drive id_before run_id replica lease)
            s).1
  unfolding current_active_elapsed loop_deps
  elapsed-Leased s h =
      if_both (λ (x : ℕ × HarnessState W). IsLeased run_id holder expires x.1) s.active_clock_paused
        _ _ h h

  report_budget-Leased :
      (s : State (HarnessState W))
      → Leased s
      → Leased
          (report_budget (HarnessState W) (loop_deps deps drive id_before run_id replica lease) s)
  unfolding loop_deps apply_op
  report_budget-Leased s h =
      let x =
        current_active_elapsed (HarnessState W)
          (loop_deps deps drive id_before run_id replica lease) s in
      let budget : RunBudget = record {
        iterations_used = s.iterations_used;
        active_elapsed_ms = x.0;
      } in
      statement-IsLeased run_id holder expires deps others (set_run_budget run_id budget)
        (op_budget run_id budget) 0 x.1 (λ t. refl) tt (elapsed-Leased s h)

  pub push-Leased :
      (entries : List ConversationEntry) (s : State (HarnessState W))
      → Leased s
      → Leased
          (push (HarnessState W) (loop_deps deps drive id_before run_id replica lease) entries s)
  unfolding loop_deps apply_op
  push-Leased entries s h =
      let history = s.history ++ entries in
      report_budget-Leased
        (record s {
          history = history;
          world = (statement deps (set_conversation_history run_id history) s.world).1;
        })
        (statement-IsLeased run_id holder expires deps others
          (set_conversation_history run_id history) (op_history run_id history) 0 s.world
          (λ t. refl) tt h)

  drain-Leased :
      (s : State (HarnessState W))
      → Leased s
      → Leased (
          drain_pending_user_messages
            (HarnessState W)
            (loop_deps deps drive id_before run_id replica lease)
            false
            s)
  unfolding drain_pending_user_messages loop_deps statement drain_parked_follow_ups
  drain-Leased s h =
      let drained = statement deps (drain_parked_follow_ups id_before run_id) s.world in
      let s1 : State (HarnessState W) = record s { world = drained.1 } in
      let before = others s.world h in
      let h1 : Leased s1 = record { sound = before.sound; held = before.held } in
      list_both Leased drained.0 s1 _ h1 (λ entry entries. push-Leased (entry ∷ entries) s1 h1)

  pub resume_clock-Leased :
      (s : State (HarnessState W))
      → Leased s
      → Leased (
          resume_active_clock
            (HarnessState W)
            (loop_deps deps drive id_before run_id replica lease)
            s)
  unfolding resume_active_clock loop_deps
  resume_clock-Leased s h = if_both Leased s.active_clock_paused _ _ h h

  pub terminate-Leased :
      (outcome : TerminationOutcome) (iterations : ℕ) (s : State (HarnessState W))
      → Leased s
      → let x =
          terminate
            (HarnessState W)
            (loop_deps deps drive id_before run_id replica lease)
            outcome
            iterations
            s in
        (x.0.outcome ≡ ended outcome) × Leased x.1
  unfolding terminate
  terminate-Leased outcome iterations s h = (refl, report_budget-Leased _ (drain-Leased s h))

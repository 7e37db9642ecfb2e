-- ===== src/Run/Loop/Outcome.antt =====
-- What a result of the task loop says: a stop leaves no open tool call, and the limit holds.
use keidai.Common.{ℕ, ◌≤◌, max, ◌≡◌, subst, true, none, some, [], arith, All}
use keidai.Run.Pending.{find_unanswered_tool_calls}
use keidai.Run.Assessment.{stopped}
use keidai.Run.Loop.{TaskLoopDeps, TaskLoopResult, State, ended}
use keidai.Run.Loop.Rounds.{TaskLoopStart, is_within, run_task_loop}
use keidai.Run.Pending.Users.{IsUser}
use keidai.Run.Loop.Proper.{Holds}
use keidai.Run.Loop.Results.{Ended, run_task_loop-Ended}

abbrev pub iterations_before : TaskLoopStart → ℕ
iterations_before start = elim start.budget [ none ↦ 0 | some b ↦ b.iterations_used ]

module _ (W : Type 0) (deps : TaskLoopDeps W)
    (users : (w : W) → All IsUser (deps.drain_pending_user_messages w).0) (parks rounds : ℕ)
    (start : TaskLoopStart) (world : W) (r : TaskLoopResult) (s : State W)
    (result : run_task_loop W deps parks rounds start world ≡ some (r, s)) where
  -- A run that was stopped has a result for every tool call of its last assistant turn, when all
  -- that is drained into the conversation are messages of the user.
  pub stopped-answered : r.outcome ≡ ended stopped → find_unanswered_tool_calls r.history ≡ []
  stopped-answered e =
      let proper =
        run_task_loop-Ended W deps users parks (λ _. Unit) rounds start world (λ _ _. tt) tt tt in
      (subst (Holds (Ended W deps users parks (λ _. Unit))) result proper).closed e

  -- A run with a limit of iterations, into which only messages of the user are drained, reports at
  -- most as many iterations as its limit allows, or as it had used before it was started again.
  pub iterations-bounded :
      (limit : ℕ)
      → start.limits.max_iterations ≡ some limit
      → r.iterations ≤ max limit (iterations_before start)
  iterations-bounded limit e =
      let fits : ℕ → Type 0 = λ n. n ≤ max limit (iterations_before start) in
      let proper =
        run_task_loop-Ended W deps users parks fits rounds start world
          (λ i h. ground (arith, subst (λ o. is_within o i ≡ true) e h)) (omega arith)
          (omega arith) in
      (subst (Holds (Ended W deps users parks fits)) result proper).within

-- ===== src/Run/Stop.antt =====
-- The stop controller: apps/shaiden/src/run/run-stop-controller.ts. An `AbortController` is a number,
-- the one that was made as the so-many-th; its signal is whether it was aborted.
pub mod Laws
use keidai.Common.{
  ℕ, zero, suc, String, str_eq, Bool, true, false, Option, none, some, List, [], ◌∷◌, if◌then◌else◌,
  ◌==◌,
}

pub record RunStopController : Type 0 where
  pub requested : String → Bool
  pub controllers : String → Option ℕ
  pub aborted : ℕ → Bool
  pub made : ℕ

abbrev pub new_controller : RunStopController
new_controller = record {
  requested = λ _. false;
  controllers = λ _. none;
  aborted = λ _. false;
  made = 0;
}

-- `map.set(key, value)` and `map.delete(key)`.
abbrev pub set_at {ℓ} : {A : Type ℓ} → String → A → (String → A) → String → A
set_at key value f x = if str_eq x key then value else f x

abbrev pub abort : ℕ → (ℕ → Bool) → ℕ → Bool
abort n f x = if x == n then true else f x

-- A new controller of the run, aborted at once if a stop was requested before.
abbrev pub attached : String → RunStopController → RunStopController
attached run_id s = record s {
  controllers = set_at run_id (some s.made) s.controllers;
  aborted = if s.requested run_id then abort s.made s.aborted else s.aborted;
  made = suc s.made;
}

-- The signal of the run, and the controller after the call.
unfoldable pub attach : String → RunStopController → ℕ × RunStopController
attach run_id s = elim (s.controllers run_id) [
  | some existing ↦ (existing, s)
  | none ↦ (s.made, attached run_id s)
]

unfoldable pub request_stop : String → RunStopController → RunStopController
request_stop run_id s = record s {
  requested = set_at run_id true s.requested;
  aborted = elim (s.controllers run_id) [ none ↦ s.aborted | some n ↦ abort n s.aborted ];
}

unfoldable pub is_stop_requested : String → RunStopController → Bool
is_stop_requested run_id s = s.requested run_id

unfoldable pub release : String → RunStopController → RunStopController
release run_id s = record s {
  controllers = set_at run_id none s.controllers;
  requested = set_at run_id false s.requested;
}

pub data Call : Type 0 where
  attach_run stop_run release_run : String → Call

unfoldable pub call_one : Call → RunStopController → RunStopController
unfolding attach request_stop release
call_one (attach_run run_id) s = (attach run_id s).1
call_one (stop_run run_id) s = request_stop run_id s
call_one (release_run run_id) s = release run_id s

unfoldable pub call_all : List Call → RunStopController → RunStopController
unfolding call_one
call_all [] s = s
call_all (c ∷ calls) s = call_all calls (call_one c s)

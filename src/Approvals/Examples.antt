-- ===== src/Approvals/Examples.antt =====
-- Approvals at concrete stores: tests, and the theorems at inputs that meet their hypotheses.
use keidai.Common.{String, ◌≡◌, refl, ◌<◌, false, none, some, [], ◌∷◌, arith}
use keidai.Policy.{AgentPrincipal}
use keidai.Tasks.Inputs.{Payload}
use keidai.Tasks.{StoredMcpTask, create_working_task, new_task}
use keidai.Approvals.{
  ApprovalStore, ApprovalRecord, pending, approved, Decision, approve_it, decided, is_decidable,
  decide_pending, get_approval, get_approval_by_task_id, mark_used, reject, find_recent_rejection,
  rejection_of, create_pending_approval,
}
use keidai.Approvals.Gate.{
  GateStore, GatedCall, parked, park, parked_task, intercept_gated_call, claim_approved_execution,
  may_claim,
}
use keidai.Approvals.Decide.{IsKeyed}
use keidai.Approvals.Steps.{accept, refuse, mark, run, Later, run-Later}
use keidai.Approvals.Single.{claim_approved_execution_sound, claim_once}
use keidai.Approvals.Suppress.{find_recent_rejection-reject}
use keidai.Approvals.Parking.{IsParked, intercept_gated_call-parked}

abbrev agent : AgentPrincipal
agent = record { agent_id = "a1"; owner_id = "o1"; groups = [] }

abbrev other_agent : AgentPrincipal
other_agent = record { agent_id = "a2"; owner_id = "o1"; groups = [] }

abbrev send : GatedCall
send = record {
  principal = agent;
  tool_name = "mail.send";
  upstream_args = "{}";
  run_id = none;
  step_id = none;
}

abbrev hash : Payload → String
hash p = p

abbrev empty : GateStore
empty = record { store = record { approvals = []; rejections = [] }; tasks = [] }

abbrev waiting : ApprovalRecord
waiting = record {
  id = "p1";
  agent_id = "a1";
  owner_id = "o1";
  tool_name = "mail.send";
  params = "{}";
  params_hash = "{}";
  run_id = none;
  step_id = none;
  task_id = some "t1";
  status = pending;
  rejection_reason = none;
  created_at = 10;
  expires_at = 100;
  decided_at = none;
  used_at = none;
}

abbrev asked : ApprovalStore
asked = record { approvals = waiting ∷ []; rejections = [] }

abbrev allowed_call : ApprovalRecord
allowed_call = decided approve_it none 20 waiting

abbrev ready : ApprovalStore
ready = record { approvals = allowed_call ∷ []; rejections = [] }

asked-IsKeyed : IsKeyed asked
asked-IsKeyed = ((λ h. h), tt)

ready-IsKeyed : IsKeyed ready
ready-IsKeyed = ((λ h. h), tt)

approved_asked : decide_pending "p1" approve_it none 20 asked ≡ (some allowed_call, ready)
unfolding decide_pending
approved_asked = refl

used_ready : (mark_used "p1" 30 ready).0 ≡ some (record allowed_call { used_at = some 30 })
unfolding mark_used
used_ready = refl

claimed_ready :
    (claim_approved_execution "t1" agent 30 ready).0
    ≡ some (record allowed_call { used_at = some 30 })
unfolding claim_approved_execution get_approval_by_task_id may_claim mark_used
claimed_ready = refl

-- An approval that has expired, and one of another agent, are not claimed.
not_claimed :
    ((claim_approved_execution "t1" agent 100 ready).0 ≡ none)
    × ((claim_approved_execution "t1" other_agent 30 ready).0 ≡ none)
unfolding claim_approved_execution get_approval_by_task_id may_claim
not_claimed = (refl, refl)

claim_approved_execution_sound_example :
    (old : ApprovalRecord) × (get_approval_by_task_id "t1" ready ≡ some old)
    × (old.agent_id ≡ "a1")
    × (old.status ≡ approved)
    × (30 < old.expires_at)
    × (old.used_at ≡ none)
    × (record allowed_call { used_at = some 30 } ≡ record old { used_at = some 30 })
    × (get_approval old.id (claim_approved_execution "t1" agent 30 ready).1
        ≡ some (record allowed_call { used_at = some 30 }))
claim_approved_execution_sound_example =
    claim_approved_execution_sound "t1" agent 30 ready (record allowed_call { used_at = some 30 })
      ready-IsKeyed claimed_ready

claim_once_example :
    (claim_approved_execution "t1" other_agent 50
      (run (accept "p1" 40 ∷ []) (claim_approved_execution "t1" agent 30 ready).1)).0
    ≡ none
claim_once_example =
    claim_once "t1" agent other_agent 30 50 (accept "p1" 40 ∷ []) ready
      (record allowed_call { used_at = some 30 }) ready-IsKeyed claimed_ready

ready_found : get_approval "p1" ready ≡ some allowed_call
unfolding get_approval
ready_found = refl

run-Later_example :
    (r' : ApprovalRecord) × (get_approval "p1" (run (refuse "p1" none 30 ∷ mark "p1" 40 ∷ []) ready)
      ≡ some r')
    × Later allowed_call r'
run-Later_example =
    run-Later (refuse "p1" none 30 ∷ mark "p1" 40 ∷ []) ready "p1" allowed_call ready_found

asked_found : get_approval "p1" asked ≡ some waiting
unfolding get_approval
asked_found = refl

decided_before : (r : ApprovalRecord) → get_approval "p1" ready ≡ some r → is_decidable 30 r ≡ false
unfolding get_approval
decided_before r e = ground (arith, e)

asked_rejected :
    (reject "p1" (some "no") 50 asked).0 ≡ some (decided Decision.reject_it (some "no") 50 waiting)
unfolding reject decide_pending
asked_rejected = refl

find_recent_rejection-reject_example :
    (find_recent_rejection "a1" "mail.send" "{}" 60 (reject "p1" (some "no") 50 asked).1).0
    ≡ some (rejection_of waiting (some "no") 50)
find_recent_rejection-reject_example =
    find_recent_rejection-reject "p1" (some "no") 50 60 asked
      (decided Decision.reject_it (some "no") 50 waiting) asked_rejected (omega arith)

abbrev created_task : StoredMcpTask
created_task = new_task "t1" (parked_task hash send) 10

abbrev parked_store : GateStore
parked_store = (intercept_gated_call hash "t1" "p1" send 10 empty).1

send_parked :
    intercept_gated_call hash "t1" "p1" send 10 empty ≡ (some (parked created_task), parked_store)
unfolding intercept_gated_call find_recent_rejection park create_working_task
    create_pending_approval
send_parked = refl

intercept_gated_call-parked_example : IsParked hash "t1" "p1" send 10 created_task parked_store
intercept_gated_call-parked_example =
    intercept_gated_call-parked hash "t1" "p1" send 10 empty parked_store created_task send_parked

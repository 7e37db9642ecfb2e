-- ===== src/Tasks/Invariant.antt =====
-- What holds of every row of `mcp_tasks`, and that each record that the store saves keeps it.
use keidai.Common.{
  ℕ, String, eq_iff, ◌≡◌, refl, ◌≢◌, Bool, true, false, not, ◌||◌, none, some, List, [], ◌∷◌, ◌++◌,
  arith, if◌then◌else◌, Elem, IsDisjoint, includes, includes_iff, not-Elem-append,
}
use keidai.Tasks.Inputs.{
  Payload, Requests, keys, in_object, remove_key, apply_responses, set_key, merge_requests,
  any_used,
}
use keidai.Tasks.{
  McpTaskStatus, input_required, completed, failed, StoredMcpTask, BackendOrigin,
  CreateMcpTaskInput, or_else, new_task, attached, answered, apply_to, cancelled_task, requiring,
  finished, is_input_required, is_mcp_task_terminal_status,
}

-- A key is never asked for again once it was answered.
pub keys-remove :
    (key : String) (rs : Requests) (used : List String)
    → IsDisjoint (keys rs) used
    → IsDisjoint (keys (remove_key key rs)) (used ++ key ∷ [])
keys-remove key [] used h = tt
keys-remove key ((k, v) ∷ rs) used (p, h) =
    ground (arith, eq_iff k key, keys-remove key rs used h, not-Elem-append k used (key ∷ []) p)

pub apply_responses-fresh :
    (responses : List String) (rs : Requests) (used : List String)
    → IsDisjoint (keys rs) used
    → IsDisjoint (keys (apply_responses responses rs used).0) (apply_responses responses rs used).1
unfolding apply_responses
apply_responses-fresh [] rs used h = h
apply_responses-fresh (key ∷ responses) rs used h =
    elim (not (in_object key rs) || includes used key)
      as (λ b.
        let after =
          apply_responses responses (if b then rs else remove_key key rs)
            (if b then used else used ++ key ∷ []) in
        IsDisjoint (keys after.0) after.1) [
          | true ↦ apply_responses-fresh responses rs used h
          | false ↦
              apply_responses-fresh responses (remove_key key rs) (used ++ key ∷ [])
                (keys-remove key rs used h)
        ]

set_key-fresh :
    (key : String) (value : Payload) (rs : Requests) (used : List String)
    → ¬ Elem key used
    → IsDisjoint (keys rs) used
    → IsDisjoint (keys (set_key key value rs)) used
unfolding set_key
set_key-fresh key value [] used p h = (p, tt)
set_key-fresh key value ((k, v) ∷ rs) used p (q, h) =
    ground (arith, set_key-fresh key value rs used p h)

or_false : (a b : Bool) → (a || b) ≡ false → (a ≡ false) × (b ≡ false)
or_false a b h = ground arith

merge_requests-fresh :
    (old rs : Requests) (used : List String)
    → any_used used (keys rs) ≡ false
    → IsDisjoint (keys old) used
    → IsDisjoint (keys (merge_requests old rs)) used
unfolding merge_requests any_used
merge_requests-fresh old [] used u h = h
merge_requests-fresh old ((k, v) ∷ rs) used u h =
    let (unused, rest) = or_false (includes used k) (any_used used (keys rs)) u in
    merge_requests-fresh (set_key k v old) rs used rest
      (set_key-fresh k v old used (λ m. ground (arith, unused, (includes_iff used k).1 m)) h)

pub is_input_required-eq : (s : McpTaskStatus) → is_input_required s ≡ true → s ≡ input_required
is_input_required-eq input_required e = refl
is_input_required-eq _ e = cc

pub record IsWellFormed (t : StoredMcpTask) : Type 0 where
  -- An object of requests, which may be empty, is there exactly while the task waits for input.
  pub asks : t.status ≡ input_required → t.input_requests ≢ none
  pub asks_only : t.status ≢ input_required → t.input_requests ≡ none
  -- A result belongs to a completed task, an error to a failed one.
  pub has_result : t.status ≡ completed → t.result ≢ none
  pub result_only : t.status ≢ completed → t.result ≡ none
  pub has_error : t.status ≡ failed → t.error ≢ none
  pub error_only : t.status ≢ failed → t.error ≡ none
  -- No outstanding key was answered before.
  pub fresh : IsDisjoint (keys (or_else t.input_requests [])) t.satisfied_input_keys

pub new_task-IsWellFormed :
    (id : String) (input : CreateMcpTaskInput) (now : ℕ) → IsWellFormed (new_task id input now)
unfolding new_task
new_task-IsWellFormed id input now = record {
  asks = λ e. cc;
  asks_only = λ _. refl;
  has_result = λ e. cc;
  result_only = λ _. refl;
  has_error = λ e. cc;
  error_only = λ _. refl;
  fresh = tt;
}

module _ (t : StoredMcpTask) (w : IsWellFormed t) where
  pub attached-IsWellFormed :
      (origin : BackendOrigin) (now : ℕ) → IsWellFormed (attached origin now t)
  attached-IsWellFormed origin now = record {
    asks = w.asks;
    asks_only = w.asks_only;
    has_result = w.has_result;
    result_only = w.result_only;
    has_error = w.has_error;
    error_only = w.error_only;
    fresh = w.fresh;
  }

  pub cancelled_task-IsWellFormed :
      (now : ℕ) → is_mcp_task_terminal_status t.status ≡ false → IsWellFormed (cancelled_task now t)
  unfolding is_mcp_task_terminal_status
  cancelled_task-IsWellFormed now d = record {
    asks = λ e. cc;
    asks_only = λ _. refl;
    has_result = λ e. cc;
    result_only = λ _. w.result_only (λ e. ground (arith, d, e));
    has_error = λ e. cc;
    error_only = λ _. w.error_only (λ e. ground (arith, d, e));
    fresh = tt;
  }

  pub finished-IsWellFormed_completed :
      (result : Payload) (now : ℕ) → IsWellFormed (finished completed (some result) none now t)
  finished-IsWellFormed_completed result now = record {
    asks = λ e. cc;
    asks_only = λ _. refl;
    has_result = λ _ e. cc;
    result_only = λ n. absurd (n refl);
    has_error = λ e. cc;
    error_only = λ _. refl;
    fresh = tt;
  }

  pub finished-IsWellFormed_failed :
      (error : Payload) (now : ℕ) → IsWellFormed (finished failed none (some error) now t)
  finished-IsWellFormed_failed error now = record {
    asks = λ e. cc;
    asks_only = λ _. refl;
    has_result = λ e. cc;
    result_only = λ _. refl;
    has_error = λ _ e. cc;
    error_only = λ n. absurd (n refl);
    fresh = tt;
  }

  pub requiring-IsWellFormed :
      (requests : Requests) (now : ℕ)
      → is_mcp_task_terminal_status t.status ≡ false
      → any_used t.satisfied_input_keys (keys requests) ≡ false
      → IsWellFormed (requiring requests now t)
  unfolding is_mcp_task_terminal_status
  requiring-IsWellFormed requests now d u = record {
    asks = λ _ e. cc;
    asks_only = λ n. absurd (n refl);
    has_result = λ e. cc;
    result_only = λ _. w.result_only (λ e. ground (arith, d, e));
    has_error = λ e. cc;
    error_only = λ _. w.error_only (λ e. ground (arith, d, e));
    fresh =
        merge_requests-fresh (or_else t.input_requests []) requests t.satisfied_input_keys u
          w.fresh;
  }

  answered-IsWellFormed :
      (rs : Requests) (used : List String) (now : ℕ)
      → t.status ≡ input_required
      → IsDisjoint (keys rs) used
      → IsWellFormed (answered rs used now t)
  answered-IsWellFormed [] used now s h = record {
    asks = λ e. cc;
    asks_only = λ _. refl;
    has_result = λ e. cc;
    result_only = λ _. w.result_only (λ e. ground (arith, s, e));
    has_error = λ e. cc;
    error_only = λ _. w.error_only (λ e. ground (arith, s, e));
    fresh = tt;
  }
  answered-IsWellFormed (r ∷ rs) used now s h = record {
    asks = λ _ e. cc;
    asks_only = λ n. absurd (n refl);
    has_result = λ e. cc;
    result_only = λ _. w.result_only (λ e. ground (arith, s, e));
    has_error = λ e. cc;
    error_only = λ _. w.error_only (λ e. ground (arith, s, e));
    fresh = h;
  }

  pub apply_to-IsWellFormed :
      (responses : List String) (now : ℕ)
      → is_input_required t.status ≡ true
      → IsWellFormed (apply_to responses now t)
  apply_to-IsWellFormed responses now i =
      answered-IsWellFormed _ _ now (is_input_required-eq t.status i) (
        apply_responses-fresh responses (or_else t.input_requests []) t.satisfied_input_keys
          w.fresh)

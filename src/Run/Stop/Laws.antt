-- ===== src/Run/Stop/Laws.antt =====
-- The signal of a run is aborted exactly when its stop was requested.
use keidai.Common.{
  ℕ, ◌<◌, ◌≤◌, String, str_eq, eq_iff, eq_refl, any, ◌≡◌, refl, sym, subst, ap, ◌∙◌, inl, inr, Bool,
  true, false, some, List, [], ◌∷◌, arith, if◌then◌else◌, Option-cases,
}
use keidai.Run.Stop.{
  RunStopController, new_controller, abort, attached, attach, request_stop, is_stop_requested,
  release, Call, attach_run, stop_run, release_run, call_one, call_all,
}

record IsConsistent (s : RunStopController) : Type 0 where
  old : (id : String) (n : ℕ) → s.controllers id ≡ some n → n < s.made
  own :
      (id id' : String) (n : ℕ) → s.controllers id ≡ some n → s.controllers id' ≡ some n → id ≡ id'
  agrees : (id : String) (n : ℕ) → s.controllers id ≡ some n → s.aborted n ≡ s.requested id
  unmade : (n : ℕ) → s.made ≤ n → s.aborted n ≡ false

same_controller :
    (s : RunStopController) (k id : String) → k ≡ id → s.controllers k ≡ s.controllers id
same_controller s k id e = ap s.controllers e

same_requested : (s : RunStopController) (k id : String) → k ≡ id → s.requested k ≡ s.requested id
same_requested s k id e = ap s.requested e

release-IsConsistent :
    (id : String) (s : RunStopController) → IsConsistent s → IsConsistent (release id s)
unfolding release
release-IsConsistent id s w = record {
  old = λ k n e. ground (arith, e, w.old k n);
  own = λ k k' n e e'. ground (arith, e, e', w.own k k' n);
  agrees = λ k n e. ground (arith, e, w.agrees k n);
  unmade = w.unmade;
}

at_own :
    (s : RunStopController) (w : IsConsistent s) (k id : String) (n m : ℕ)
    → s.controllers k ≡ some n
    → s.controllers id ≡ some m
    → n ≡ m
    → k ≡ id
at_own s w k id n m e there same = w.own k id n e (there ∙ ap (λ x. some x) (sym same))

request_stop-IsConsistent :
    (id : String) (s : RunStopController) → IsConsistent s → IsConsistent (request_stop id s)
unfolding request_stop
request_stop-IsConsistent id s w = elim (Option-cases (s.controllers id)) [
  | inl absent ↦ record {
    old = λ k n e. w.old k n e;
    own = λ k k' n e e'. w.own k k' n e e';
    agrees = λ k n e. ground (arith, absent, e, eq_iff k id, same_controller s k id, w.agrees k n);
    unmade = λ n h. ground (arith, absent, w.unmade n);
  }
  | inr (m, there) ↦ record {
    old = λ k n e. w.old k n e;
    own = λ k k' n e e'. w.own k k' n e e';
    agrees = λ k n e. ground (
      arith,
      there,
      e,
      eq_iff k id,
      same_controller s k id,
      at_own s w k id n m e there,
      w.agrees k n,
    );
    unmade = λ n h. ground (arith, there, w.unmade n, w.old id m);
  }
]

aborted_at :
    (id : String) (s : RunStopController) (n : ℕ)
    → (attached id s).aborted n ≡ (if s.requested id then abort s.made s.aborted n else s.aborted n)
aborted_at id s n =
    elim (s.requested id)
      as (λ b.
        (if b then abort s.made s.aborted else s.aborted) n
        ≡ (if b then abort s.made s.aborted n else s.aborted n)) [ true ↦ refl | false ↦ refl ]

attached-IsConsistent :
    (id : String) (s : RunStopController) → IsConsistent s → IsConsistent (attached id s)
attached-IsConsistent id s w = record {
  old = λ k n e. ground (arith, e, w.old k n);
  own = λ k k' n e e'.
      ground (arith, e, e', w.own k k' n, eq_iff k id, eq_iff k' id, w.old k n, w.old k' n);
  agrees = λ k n e. ground (
    arith,
    e,
    aborted_at id s n,
    eq_iff k id,
    same_requested s k id,
    w.agrees k n,
    w.old k n,
    w.unmade n,
  );
  unmade = λ n h. ground (arith, h, aborted_at id s n, w.unmade n);
}

attach-IsConsistent :
    (id : String) (s : RunStopController) → IsConsistent s → IsConsistent (attach id s).1
unfolding attach
attach-IsConsistent id s w = elim (Option-cases (s.controllers id)) [
  | inl absent ↦
      subst IsConsistent (sym {a = (attach id s).1} {b = attached id s} (ground (arith, absent)))
        (attached-IsConsistent id s w)
  | inr (m, there) ↦
      subst IsConsistent (sym {a = (attach id s).1} {b = s} (ground (arith, there))) w
]

call_one-IsConsistent :
    (c : Call) (s : RunStopController) → IsConsistent s → IsConsistent (call_one c s)
unfolding call_one
call_one-IsConsistent (attach_run id) s w = attach-IsConsistent id s w
call_one-IsConsistent (stop_run id) s w = request_stop-IsConsistent id s w
call_one-IsConsistent (release_run id) s w = release-IsConsistent id s w

call_all-IsConsistent :
    (calls : List Call) (s : RunStopController) → IsConsistent s → IsConsistent (call_all calls s)
unfolding call_all
call_all-IsConsistent [] s w = w
call_all-IsConsistent (c ∷ calls) s w =
    call_all-IsConsistent calls (call_one c s) (call_one-IsConsistent c s w)

new_controller-IsConsistent : IsConsistent new_controller
new_controller-IsConsistent = record {
  old = λ id n e. cc;
  own = λ id id' n e e'. cc;
  agrees = λ id n e. refl;
  unmade = λ n h. refl;
}

abbrev pub is_release_of : String → Call → Bool
is_release_of id (attach_run run_id) = false
is_release_of id (stop_run run_id) = false
is_release_of id (release_run run_id) = str_eq id run_id

attach-keeps :
    (k id : String) (n : ℕ) (s : RunStopController)
    → s.controllers id ≡ some n
    → (attach k s).1.controllers id ≡ some n
unfolding attach
attach-keeps k id n s there = elim (Option-cases (s.controllers k)) [
  | inl absent ↦ ground (arith, absent, there, eq_iff id k, same_controller s id k)
  | inr (m, e) ↦ ground (arith, e, there)
]

call_one-keeps :
    (c : Call) (id : String) (n : ℕ) (s : RunStopController)
    → s.controllers id ≡ some n
    → is_release_of id c ≡ false
    → (call_one c s).controllers id ≡ some n
unfolding call_one request_stop release
call_one-keeps (attach_run k) id n s there h = attach-keeps k id n s there
call_one-keeps (stop_run k) id n s there h = there
call_one-keeps (release_run k) id n s there h = ground (arith, there, h)

call_all-keeps :
    (calls : List Call) (id : String) (n : ℕ) (s : RunStopController)
    → s.controllers id ≡ some n
    → any (is_release_of id) calls ≡ false
    → (call_all calls s).controllers id ≡ some n
unfolding call_all
call_all-keeps [] id n s there h = there
call_all-keeps (c ∷ calls) id n s there h =
    call_all-keeps calls id n (call_one c s) (call_one-keeps c id n s there (ground (arith, h)))
      (ground (arith, h))

attach-controllers :
    (id : String) (s : RunStopController) → (attach id s).1.controllers id ≡ some (attach id s).0
unfolding attach
attach-controllers id s = elim (Option-cases (s.controllers id)) [
  | inl absent ↦ ground (arith, absent, eq_refl id)
  | inr (m, there) ↦ ground (arith, there)
]

-- The signal that a run got when it was attached is aborted, at any time until the run is released,
-- exactly when a stop of the run is requested, whether it was requested before or after.
attach-aborted :
    (before after : List Call) (id : String)
    → any (is_release_of id) after ≡ false
    → (call_all after (attach id (call_all before new_controller)).1).aborted
        (attach id (call_all before new_controller)).0
      ≡ is_stop_requested id (call_all after (attach id (call_all before new_controller)).1)
unfolding is_stop_requested
attach-aborted before after id h =
    let s = call_all before new_controller in
    let w = call_all-IsConsistent before new_controller new_controller-IsConsistent in
    let (n, s') = attach id s in
    (call_all-IsConsistent after s' (attach-IsConsistent id s w)).agrees id n
      (call_all-keeps after id n s' (attach-controllers id s) h)

-- ===== src/Run/Assessment/Laws.antt =====
-- When a step of the model ends the run, and with which outcome.
use mathlib.Core.Option.{some-injective}
use keidai.Common.{
  String, ◌≡◌, ◌↔◌, ◌≢◌, ◌⊎◌, refl, ap, inl, inr, true, false, not, Option, none, some, List, [],
  ◌∷◌, arith, filter, all, Option-cases, Bool-cases,
}
use keidai.Tasks.Inputs.{Payload}
use keidai.Run.{ModelToolCall}
use keidai.Run.Assessment.{
  StepAssessment, StepAssessmentStatus, goal_reached, cannot_complete, goal_met, failed, stopped,
  FailureClass, ModelStep, is_blank, trim, map_terminal_assessment_to_outcome,
  resolve_model_step_assessment, is_report, is_torii, is_harness_local_tool, is_nil, reported,
  model_step, step_outcome,
}

is_blank-false : (s : String) → is_blank s ≡ false → s ≢ ""
is_blank-false s h e = ground (arith, h, ap is_blank e)

status-cases : (s : StepAssessmentStatus) → (s ≡ goal_reached) ⊎ (s ≡ cannot_complete)
status-cases goal_reached = inl refl
status-cases cannot_complete = inr refl

-- A run that fails by the model's report, or without one, has a reason that is not empty.
pub map_terminal-reason :
    (a : Option StepAssessment) (reason : String) (class : FailureClass)
    → map_terminal_assessment_to_outcome a ≡ failed reason class
    → reason ≢ ""
unfolding map_terminal_assessment_to_outcome
map_terminal-reason none reason class e =
    ground (arith, e, is_blank-false "model returned no step assessment" refl)
map_terminal-reason (some a) reason class e = elim (status-cases a.status) [
  | inl reached ↦ absurd (ground (arith, e, reached))
  | inr stuck ↦ elim (Bool-cases (is_blank (trim a.message))) [
    | inl blank ↦
        ground (arith, e, stuck, blank, is_blank-false "agent reported cannot complete" refl)
    | inr said ↦ ground (arith, e, stuck, said, is_blank-false (trim a.message) said)
  ]
]

no_torii :
    (calls : List ModelToolCall)
    → is_nil (filter is_torii calls) ≡ all (λ call. is_harness_local_tool call.tool_name) calls
no_torii [] = refl
no_torii (call ∷ calls) = ground (arith, no_torii calls)

map_terminal-goal_met :
    (a : Option StepAssessment)
    → map_terminal_assessment_to_outcome a ≡ goal_met
    → (b : StepAssessment) × (a ≡ some b) × (b.status ≡ goal_reached)
unfolding map_terminal_assessment_to_outcome
map_terminal-goal_met none e = cc
map_terminal-goal_met (some a) e = elim (status-cases a.status) [
  | inl reached ↦ (a, refl, reached)
  | inr stuck ↦ absurd (ground (arith, e, stuck))
]

ends_met :
    (report : Option StepAssessment) (calls : List ModelToolCall) (said text : String)
    → (step_outcome (record {
      text = said;
      tool_calls = calls;
      assessment = resolve_model_step_assessment report (filter is_torii calls) text calls;
    })
        ≡ some goal_met)
      ↔ ((a : StepAssessment) × (report ≡ some a)
          × (a.status ≡ goal_reached)
          × (all (λ call. is_harness_local_tool call.tool_name) calls ≡ true))
unfolding step_outcome resolve_model_step_assessment map_terminal_assessment_to_outcome
ends_met none [] said text = (
  (λ e. elim (Bool-cases (is_blank (trim text))) [
    | inl blank ↦ absurd (ground (arith, e, blank))
    | inr some_text ↦ absurd (ground (arith, e, some_text))
  ]),
  λ h. absurd (ground (arith, h.1)),
)
ends_met (some a) [] said text = (
  (λ e.
      let (b, same, met) = map_terminal-goal_met (some a) (some-injective _ _ e) in
      (b, same, met, refl)),
  λ (b, e, met, _). ground (arith, e, met),
)
ends_met none (call ∷ calls) said text =
    elim (Bool-cases (is_nil (filter is_torii (call ∷ calls)))) [
      | inl free ↦ ((λ e. absurd (ground (arith, e, free))), (λ h. absurd (ground (arith, h.1))))
      | inr bound ↦ ((λ e. absurd (ground (arith, e, bound))), (λ h. absurd (ground (arith, h.1))))
    ]
ends_met (some a) (call ∷ calls) said text =
    let local = no_torii (call ∷ calls) in
    elim (Bool-cases (is_nil (filter is_torii (call ∷ calls)))) [
      | inl free ↦ (
        (λ e.
            let (b, same, met) =
              map_terminal-goal_met (some a)
                (some-injective _ _ (ground (arith, e, free, local))) in
            (b, same, met, ground (arith, free, local))),
        (λ (b, same, met, l). ground (arith, same, met, l, free, local)),
      )
      | inr bound ↦ (
        (λ e. absurd (ground (arith, e, bound))),
        (λ (b, same, met, l). absurd (ground (arith, l, bound, local))),
      )
    ]

module _ (parse : Payload → Option StepAssessment) (calls : List ModelToolCall)
    (text : String) where
  abbrev others : List ModelToolCall
  others = filter (λ call. not (is_report call)) calls

  -- A step of the model ends its run as a success exactly when the model reported so, by a
  -- well-formed report, and every other tool call of the step is of a tool of the harness itself.
  pub step_outcome-goal_met_iff : (step_outcome (model_step parse calls text) ≡ some goal_met) ↔ (
      (a : StepAssessment) × (reported parse calls ≡ some a)
      × (a.status ≡ goal_reached)
      × (all (λ call. is_harness_local_tool call.tool_name) others ≡ true))
  unfolding step_outcome model_step
  step_outcome-goal_met_iff =
      ends_met (reported parse calls) others (model_step parse calls text).text text

not-map_terminal-stopped :
    (a : Option StepAssessment) → map_terminal_assessment_to_outcome a ≢ stopped
unfolding map_terminal_assessment_to_outcome
not-map_terminal-stopped none e = cc
not-map_terminal-stopped (some a) e = elim (status-cases a.status) [
  | inl reached ↦ ground (arith, e, reached)
  | inr stuck ↦ ground (arith, e, stuck)
]

pub not-step_outcome-stopped : (step : ModelStep) → step_outcome step ≢ some stopped
unfolding step_outcome
not-step_outcome-stopped step e = elim (Bool-cases (is_nil step.tool_calls)) [
  | inl bare ↦ ground (arith, e, bare, not-map_terminal-stopped step.assessment)
  | inr calls ↦ elim (Option-cases step.assessment) [
    | inl silent ↦ ground (arith, e, calls, silent)
    | inr (a, said) ↦
        elim (Bool-cases (all (λ call. is_harness_local_tool call.tool_name) step.tool_calls)) [
          | inl local ↦ ground (arith, e, calls, said, local, not-map_terminal-stopped (some a))
          | inr torii ↦ ground (arith, e, calls, said, torii)
        ]
  ]
]

-- ===== src/Run/Assessment.antt =====
-- The end of a run as the model reports it: apps/shaiden/src/run/step-assessment.ts, the model's step
-- (createModelStepCaller of model-step.ts), and the two tests of task-loop.ts that end a run on it.
-- The schema of the report (`parseStepAssessment`) is the parameter `parse`.
pub mod Laws
use Prim.Native.Char.{Char, code}
use Prim.Native.String
use keidai.Common.{
  ℕ, String, str_eq, Bool, true, false, not, ◌||◌, ◌&&◌, Option, none, some, List, [], ◌∷◌,
  if◌then◌else◌, ◌==◌, leb, filter, find, all,
}
use keidai.Tasks.Inputs.{Payload}
use keidai.Run.{ModelToolCall}

pub data StepAssessmentStatus : Type 0 where
  goal_reached cannot_complete : StepAssessmentStatus

pub record StepAssessment : Type 0 where
  pub status : StepAssessmentStatus
  pub message : String

-- packages/shared/src/run.ts
pub data FailureClass : Type 0 where
  platform agent limit human : FailureClass

pub data TerminationOutcome : Type 0 where
  goal_met iteration_exhausted timeout human_reject stopped : TerminationOutcome
  failed : String → FailureClass → TerminationOutcome

pub record ModelStep : Type 0 where
  pub text : String
  pub tool_calls : List ModelToolCall
  pub assessment : Option StepAssessment

-- White space and line terminators of ECMAScript.
abbrev pub is_space : ℕ → Bool
is_space c =
    (leb 9 c && leb c 13)
    || c == 32
    || c == 160
    || c == 0x1680
    || (leb 0x2000 c && leb c 0x200A)
    || c == 0x2028
    || c == 0x2029
    || c == 0x202F
    || c == 0x205F
    || c == 0x3000
    || c == 0xFEFF

abbrev pub is_blank : String → Bool
is_blank String.[] = true
is_blank (String.◌∷◌ c s) = false

unfoldable pub trim_start : String → String
trim_start String.[] = ""
trim_start (String.◌∷◌ c s) = if is_space (code c) then trim_start s else String.◌∷◌ c s

unfoldable pub trim_end : String → String
trim_end String.[] = ""
trim_end (String.◌∷◌ c s) =
    let rest = trim_end s in if is_blank rest && is_space (code c) then "" else String.◌∷◌ c rest

-- `text.trim()`
unfoldable pub trim : String → String
unfolding trim_start trim_end
trim s = trim_end (trim_start s)

unfoldable pub map_terminal_assessment_to_outcome : Option StepAssessment → TerminationOutcome
unfolding trim
map_terminal_assessment_to_outcome none = failed "model returned no step assessment" agent
map_terminal_assessment_to_outcome (some a) = elim a.status [
  | goal_reached ↦ goal_met
  | cannot_complete ↦
      failed
        (if is_blank (trim a.message) then "agent reported cannot complete" else trim a.message)
        agent
]

abbrev is_nil {ℓ} : {A : Type ℓ} → List A → Bool
is_nil [] = true
is_nil (_ ∷ _) = false

unfoldable pub resolve_model_step_assessment :
    Option StepAssessment → List ModelToolCall → String → List ModelToolCall → Option StepAssessment
unfolding trim
resolve_model_step_assessment assessment torii_tool_calls fallback_text continuing_tool_calls =
    if not (is_nil torii_tool_calls) then none else elim assessment [
      | some a ↦ some a
      | none ↦
          if not (is_nil continuing_tool_calls)
          then none
          else if is_blank (trim fallback_text)
          then none
          else some (record { status = cannot_complete; message = trim fallback_text })
    ]

abbrev pub report_step_assessment_tool : String
report_step_assessment_tool = "report_step_assessment"

abbrev pub is_report : ModelToolCall → Bool
is_report call = str_eq call.tool_name report_step_assessment_tool

-- `REPORT_TASK_OUTPUT_TOOL` and `EXECUTE_PYTHON_TOOL`.
abbrev pub is_harness_local_tool : String → Bool
is_harness_local_tool name = str_eq name "report_task_output" || str_eq name "execute_python"

abbrev pub is_torii : ModelToolCall → Bool
is_torii call = not (is_harness_local_tool call.tool_name)

module _ (parse : Payload → Option StepAssessment) where
  -- `parseStepAssessment(assessmentCall?.input)`
  abbrev pub reported : List ModelToolCall → Option StepAssessment
  reported calls = elim (find is_report calls) [ none ↦ none | some call ↦ parse call.input ]

  -- The step that `createModelStepCaller` makes of the calls and the text of the model.
  unfoldable pub model_step : List ModelToolCall → String → ModelStep
  unfolding resolve_model_step_assessment
  model_step calls text =
      let tool_calls = filter (λ call. not (is_report call)) calls in
      let assessment =
        resolve_model_step_assessment (reported calls) (filter is_torii tool_calls) text
          tool_calls in
      record {
        text = elim assessment [
          | none ↦ text
          | some a ↦ if is_blank a.message then text else a.message
        ];
        tool_calls = tool_calls;
        assessment = assessment;
      }

-- How the task loop ends on a step whose tool calls have all been answered; `none` when it goes on.
unfoldable pub step_outcome : ModelStep → Option TerminationOutcome
unfolding map_terminal_assessment_to_outcome
step_outcome step =
    if is_nil step.tool_calls
    then some (map_terminal_assessment_to_outcome step.assessment)
    else elim step.assessment [
      | none ↦ none
      | some a ↦
          if all (λ call. is_harness_local_tool call.tool_name) step.tool_calls
          then some (map_terminal_assessment_to_outcome (some a))
          else none
    ]

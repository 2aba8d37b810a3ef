-- ===== src/Plan/Completion.antt =====
-- AssessCompletion of internal/plan/plan.go: whether a plan can truthfully finish.
pub mod Assessed
use collomia.Common.{
  ℕ, List, [], ◌∷◌, ◌++◌, Option, none, some, String, str_eq, Bool, true, false, not, ◌&&◌, ◌||◌,
  all, any, is_empty, if◌then◌else◌, ◌≡◌, ◌↔◌, inl, inr, refl, sym, ap, subst, arith, All, ◌⊎◌, ◌∙◌,
  eq_iff, Bool-cases,
}
use collomia.Common.Int.{ℤ}
use collomia.Plan.Data.{Step, Plan}
use collomia.Plan.Validate.{Fault, is_blank, is_known, is_closed, is_met, validate}
use collomia.Plan.Validate.Steps.{StepOk}
use collomia.Plan.Validate.Valid.{IsValid, validate-IsValid}

pub data CompletionState : Type 0 where
  ready incomplete blocked : CompletionState

-- The issues, each with the step that its message names.
pub data Issue : Type 0 where
  invalid : Fault → Issue
  unfinished without_evidence without_reason unknown_status : ℤ → String → Issue

pub record Completion : Type 0 where
  pub state : CompletionState
  pub issues : List Issue

-- One turn of the loop: the issue that it adds, and whether the step is blocked for a reason.
abbrev pub assess_status : ℤ → String → Bool → Option Issue × Bool
assess_status id status blank =
    if str_eq status "pending" || str_eq status "in_progress"
    then (some (unfinished id status), false)
    else if str_eq status "done" || str_eq status "skipped"
    then (if blank then (some (without_evidence id status), false) else (none, false))
    else if str_eq status "blocked"
    then (if blank then (some (without_reason id status), false) else (none, true))
    else (some (unknown_status id status), false)

unfoldable pub assess_step : Step → Option Issue × Bool
unfolding is_blank
assess_step s = assess_status s.id s.status (is_blank s.evidence)

abbrev pub add_issue : List Issue → Option Issue → List Issue
add_issue issues none = issues
add_issue issues (some i) = issues ++ i ∷ []

unfoldable pub assess_steps : List Issue → Bool → List Step → List Issue × Bool
unfolding assess_step
assess_steps issues stuck [] = (issues, stuck)
assess_steps issues stuck (s ∷ ss) =
    let (issue, stops) = assess_step s in assess_steps (add_issue issues issue) (stuck || stops) ss

-- What the loop leaves.
abbrev pub conclude : List Issue × Bool → Completion
conclude (issues, stuck) =
    if not (is_empty issues)
    then record { state = incomplete; issues = issues }
    else record { state = if stuck then blocked else ready; issues = [] }

abbrev pub assess_checked : Option Fault → List Step → Completion
assess_checked (some f) steps = record { state = incomplete; issues = invalid f ∷ [] }
assess_checked none steps = conclude (assess_steps [] false steps)

unfoldable pub assess_completion : (ℕ → ℕ) → (ℕ → ℕ) → Option Plan → Completion
unfolding validate assess_steps
assess_completion lower fold none = record { state = ready; issues = [] }
assess_completion lower fold (some p) = assess_checked (validate lower fold p) p.steps

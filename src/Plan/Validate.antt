-- ===== src/Plan/Validate.antt =====
-- Validate of internal/plan/plan.go with validateArtifacts of internal/plan/artifacts.go. `lower` and
-- `fold` are the case tables of the scopes of internal/writescope/scope.go. filepath.Clean of the
-- paths of artifacts is read as path.Clean, which it is where the separator is a slash.
pub mod Fresh
pub mod Steps
pub mod Rules
pub mod Valid
use collomia.Common.{
  ℕ, zero, suc, List, [], ◌∷◌, Option, none, some, String, str_eq, if◌then◌else◌, length, Bool,
  true, false, not, ◌&&◌, ◌||◌, any, is_empty, map, ltb, ◌≡◌, ◌↔◌, refl,
}
use collomia.Common.Text.{Codes, codes, trim_space, text_eq, contains_any, byte_len}
use collomia.Common.Int.{ℤ, pos, int_eq, has_int}
use collomia.Writescope.{ScopeError, Normalized, normal, failed, normalize, is_whole, clean}
use collomia.Plan.Data.{Step, FailureResolution, Artifact, Plan, last_of}
use collomia.Plan.Cycle.{Search, clear, found, out, dependency_cycle}

-- The errors, each with the index or the value that its message names.
pub data Fault : Type 0 where
  too_many_artifacts no_goal no_steps search_unfinished : Fault
  artifact_path artifact_role step_zero step_title no_scope wide_scope bad_execution : ℕ → Fault
  failure_unnamed failure_evidence bad_recovery self_dependency failure_state : ℕ → Fault
  artifact_repeated failure_repeated : Codes → Fault
  step_repeated cycle : ℤ → Fault
  acceptance : ℕ → ℕ → Fault
  bad_scope : ℕ → ScopeError → Fault
  bad_status no_evidence bad_disposition : ℕ → String → Fault
  failure_step unknown_dependency repeated_dependency unmet_dependency : ℕ → ℤ → Fault

infixr 20 ◌before◌
-- The first error of two checks.
abbrev pub ◌before◌ : Option Fault → Option Fault → Option Fault
none before later = later
some f before later = some f

abbrev pub check : Bool → Fault → Option Fault
check bad f = if bad then some f else none

pub before-none : {a b : Option Fault} → (a before b ≡ none) ↔ ((a ≡ none) × (b ≡ none))
before-none {a = none} = (λ h. (refl, h), λ (h, k). k)
before-none {a = some f} = (λ h. cc, λ (h, k). h)

pub check-none : {b : Bool} (f : Fault) → (check b f ≡ none) ↔ (b ≡ false)
check-none {b = true} f = (λ h. cc, λ h. cc)
check-none {b = false} f = (λ h. refl, λ h. refl)

unfoldable pub is_blank : Codes → Bool
unfolding trim_space
is_blank s = is_empty (trim_space s)

abbrev pub is_known : String → Bool
is_known status =
    str_eq status "pending"
    || str_eq status "in_progress"
    || str_eq status "done"
    || str_eq status "blocked"
    || str_eq status "skipped"

abbrev pub is_closed : String → Bool
is_closed status = str_eq status "done" || str_eq status "blocked" || str_eq status "skipped"

abbrev pub is_started : String → Bool
is_started status = str_eq status "in_progress" || str_eq status "done"

-- What a dependency must be before a step starts.
abbrev pub is_met : String → Bool
is_met status = str_eq status "done" || str_eq status "skipped"

abbrev pub is_serial : String → Bool
is_serial execution =
    str_eq execution "" || str_eq execution "primary" || str_eq execution "read_only"

abbrev pub is_recovery : String → Bool
is_recovery disposition =
    str_eq disposition "recovered_by_retry" || str_eq disposition "recovered_by_alternative"

-- `states[id]`, which is "" where no step has the ID.
unfoldable pub state_of : List Step → ℤ → String
state_of steps id = elim (last_of (λ s. s.status) steps id) [ none ↦ "" | some status ↦ status ]

unfoldable pub bad_path : Codes → Bool
unfolding trim_space byte_len clean text_eq
bad_path raw =
    let path = trim_space raw in
    is_empty path
    || ltb 1024 (byte_len path)
    || contains_any path (0 ∷ 13 ∷ 10 ∷ [])
    || text_eq (clean path) (b'.' ∷ [])

abbrev pub path_key : Codes → Codes
path_key raw = clean (trim_space raw)

unfoldable pub artifact_faults : ℕ → List Codes → List Artifact → Option Fault
unfolding bad_path text_eq
artifact_faults i seen [] = none
artifact_faults i seen (a ∷ rest) =
    let later = artifact_faults (suc i) (path_key a.path ∷ seen) rest in
    check (bad_path a.path) (artifact_path i)
    before check (not (str_eq a.role "deliverable") && not (str_eq a.role "scratch"))
        (artifact_role i)
    before check (any (text_eq (path_key a.path)) seen) (artifact_repeated a.path)
    before later

-- validateArtifacts
unfoldable pub validate_artifacts : List Artifact → Option Fault
unfolding artifact_faults
validate_artifacts artifacts =
    check (ltb 64 (length artifacts)) too_many_artifacts before artifact_faults 0 [] artifacts

unfoldable pub acceptance_faults : ℕ → ℕ → List Codes → Option Fault
unfolding is_blank
acceptance_faults i j [] = none
acceptance_faults i j (c ∷ cs) =
    let later = acceptance_faults i (suc j) cs in check (is_blank c) (acceptance i j) before later

-- The error of writescope.Normalize, passed on.
abbrev pub scope_fault : ℕ → Normalized → Option Fault
scope_fault i (failed e) = some (bad_scope i e)
scope_fault i (normal scopes) = none

abbrev pub narrow_fault : ℕ → Normalized → Option Fault
narrow_fault i (failed e) = some (bad_scope i e)
narrow_fault i (normal scopes) = check (is_whole scopes) (wide_scope i)

module _ (lower fold : ℕ → ℕ) where
  -- The switch on the execution of a step.
  unfoldable pub execution_fault : ℕ → Step → Option Fault
  unfolding normalize
  execution_fault i s =
      if is_serial s.execution
      then scope_fault i (normalize lower fold s.write_paths false)
      else if str_eq s.execution "isolated_write"
      then check (is_empty s.write_paths) (no_scope i)
        before narrow_fault i (normalize lower fold s.write_paths true)
      else some (bad_execution i)

  -- One turn of the loop over the steps.
  unfoldable pub step_fault : ℕ → List ℤ → Step → Option Fault
  unfolding is_blank has_int int_eq acceptance_faults execution_fault
  step_fault i seen s =
      check (int_eq s.id (pos 0)) (step_zero i)
      before check (is_blank s.title) (step_title i)
      before check (has_int seen s.id) (step_repeated s.id)
      before acceptance_faults i 0 s.acceptance
      before execution_fault i s
      before check (not (is_known s.status)) (bad_status i s.status)
      before check (is_closed s.status && is_blank s.evidence) (no_evidence i s.status)

  unfoldable pub step_faults : ℕ → List ℤ → List Step → Option Fault
  unfolding step_fault
  step_faults i seen [] = none
  step_faults i seen (s ∷ ss) =
      let later = step_faults (suc i) (s.id ∷ seen) ss in step_fault i seen s before later

-- The loop over the resolved failures; `known` holds the IDs of the steps.
unfoldable pub resolution_faults : ℕ → List ℤ → List Codes → List FailureResolution → Option Fault
unfolding is_blank has_int trim_space text_eq
resolution_faults i known seen [] = none
resolution_faults i known seen (r ∷ rs) =
    let failure = trim_space r.failure_id in
    let later = resolution_faults (suc i) known (failure ∷ seen) rs in
    check (is_empty failure) (failure_unnamed i)
    before check (any (text_eq failure) seen) (failure_repeated failure)
    before check (not (has_int known r.step_id)) (failure_step i r.step_id)
    before check (is_blank r.evidence) (failure_evidence i)
    before (if is_recovery r.disposition
        then check (is_blank r.recovery_tool_call_id) (bad_recovery i)
        else if str_eq r.disposition "skipped_unnecessary" || str_eq r.disposition "blocked"
        then check (not (is_blank r.recovery_tool_call_id)) (bad_recovery i)
        else some (bad_disposition i r.disposition))
    before later

-- The dependencies of one step, `seen` those before.
unfoldable pub dependency_faults : ℕ → List ℤ → ℤ → List ℤ → List ℤ → Option Fault
unfolding has_int int_eq
dependency_faults i known id seen [] = none
dependency_faults i known id seen (d ∷ ds) =
    let later = dependency_faults i known id (d ∷ seen) ds in
    check (not (has_int known d)) (unknown_dependency i d)
    before check (int_eq d id) (self_dependency i)
    before check (has_int seen d) (repeated_dependency i d)
    before later

unfoldable pub edge_faults : ℕ → List ℤ → List Step → Option Fault
unfolding dependency_faults
edge_faults i known [] = none
edge_faults i known (s ∷ ss) =
    let later = edge_faults (suc i) known ss in
    dependency_faults i known s.id [] s.depends_on before later

abbrev pub search_fault : Search → Option Fault
search_fault (clear visited) = none
search_fault (found id) = some (cycle id)
search_fault out = some search_unfinished

unfoldable pub cycle_fault : List Step → Option Fault
unfolding dependency_cycle
cycle_fault steps = search_fault (dependency_cycle steps)

unfoldable pub unmet_faults : ℕ → List Step → List ℤ → Option Fault
unfolding state_of
unmet_faults i steps [] = none
unmet_faults i steps (d ∷ ds) =
    let later = unmet_faults i steps ds in
    check (not (is_met (state_of steps d))) (unmet_dependency i d) before later

unfoldable pub progress_faults : ℕ → List Step → List Step → Option Fault
unfolding unmet_faults
progress_faults i steps [] = none
progress_faults i steps (s ∷ ss) =
    let later = progress_faults (suc i) steps ss in
    (if is_started s.status then unmet_faults i steps s.depends_on else none) before later

-- The state that a disposition asks of its step.
abbrev pub fits : String → String → Bool
fits disposition status =
    if is_recovery disposition
    then is_met status
    else if str_eq disposition "skipped_unnecessary"
    then str_eq status "skipped"
    else if str_eq disposition "blocked"
    then str_eq status "blocked"
    else true

unfoldable pub disposition_faults : ℕ → List Step → List FailureResolution → Option Fault
unfolding state_of
disposition_faults i steps [] = none
disposition_faults i steps (r ∷ rs) =
    let later = disposition_faults (suc i) steps rs in
    check (not (fits r.disposition (state_of steps r.step_id))) (failure_state i) before later

unfoldable pub validate : (ℕ → ℕ) → (ℕ → ℕ) → Plan → Option Fault
unfolding validate_artifacts is_blank step_faults resolution_faults edge_faults cycle_fault
    progress_faults disposition_faults
validate lower fold p =
    let known = map (λ s. s.id) p.steps in
    validate_artifacts p.artifacts
    before check (is_blank p.goal) no_goal
    before check (is_empty p.steps) no_steps
    before step_faults lower fold 0 [] p.steps
    before resolution_faults 0 known [] p.resolved_failures
    before edge_faults 0 known p.steps
    before cycle_fault p.steps
    before progress_faults 0 p.steps p.steps
    before disposition_faults 0 p.steps p.resolved_failures

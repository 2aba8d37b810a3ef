-- ===== src/Plan/Validate/Valid.antt =====
-- Validate of internal/plan/plan.go accepts exactly the plans that keep the contract.
use collomia.Common.{
  ℕ, List, [], none, true, false, ltb, length, is_empty, map, ◌≡◌, ◌↔◌, refl, All, Distinct,
}
use collomia.Common.Text.{trim_space}
use collomia.Common.Int.{ℤ}
use collomia.Plan.Data.{Step, Plan}
use collomia.Plan.Cycle.{Search, clear, found, out, dependency_cycle}
use collomia.Plan.Acyclic.{Needs, IsExact, dependency_cycle-IsExact}
use collomia.Plan.Validate.{
  before-none, check-none, is_blank, path_key, validate_artifacts, search_fault, cycle_fault,
  state_of, fits, validate,
}
use collomia.Plan.Validate.Fresh.{Fresh-nil, FreshText-nil}
use collomia.Plan.Validate.Steps.{StepOk, step_faults_iff}
use collomia.Plan.Validate.Rules.{
  ArtifactOk, artifact_faults_iff, ResolutionOk, resolution_faults_iff, EdgesOk, edge_faults_iff,
  Ready, progress_faults_iff, disposition_faults_iff,
}

module _ (lower fold : ℕ → ℕ) where
  -- The contract of a plan.
  pub record IsValid (p : Plan) : Type 0 where
    pub few_artifacts : ltb 64 (length p.artifacts) ≡ false
    pub artifacts : All ArtifactOk p.artifacts
    pub paths : Distinct (λ a. path_key a.path) p.artifacts
    pub goal : is_blank p.goal ≡ false
    pub some_steps : is_empty p.steps ≡ false
    pub steps : All (StepOk lower fold) p.steps
    pub ids : Distinct (λ s. s.id) p.steps
    pub edges : All (EdgesOk (map (λ s. s.id) p.steps)) p.steps
    pub acyclic : (a : ℤ) → ¬ Needs p.steps a a
    pub progress : All (Ready p.steps) p.steps
    pub resolutions : All (ResolutionOk (map (λ s. s.id) p.steps)) p.resolved_failures
    pub failures : Distinct (λ r. trim_space r.failure_id) p.resolved_failures
    pub dispositions :
        All (λ r. fits r.disposition (state_of p.steps r.step_id) ≡ true) p.resolved_failures

  search_fault_iff :
      (steps : List Step) (r : Search)
      → IsExact steps r
      → (search_fault r ≡ none) ↔ ((a : ℤ) → ¬ Needs steps a a)
  search_fault_iff steps (clear visited) h = (λ e. h, λ n. refl)
  search_fault_iff steps (found c) h = (λ e. cc, λ n. absurd (n c h))
  search_fault_iff steps out h = absurd h

  cycle_fault_iff : (steps : List Step) → (cycle_fault steps ≡ none) ↔ ((a : ℤ) → ¬ Needs steps a a)
  unfolding cycle_fault
  cycle_fault_iff steps =
      search_fault_iff steps (dependency_cycle steps) (dependency_cycle-IsExact steps)

  -- A plan passes Validate exactly when it keeps the contract: distinct non-zero step IDs, titles,
  -- evidence on closed steps, dependencies that are known, not repeated, without a cycle, and met
  -- where a step was started, scopes narrower than the workspace for isolated writers, distinct
  -- artifacts, and failure resolutions that fit their steps.
  pub validate-IsValid : (p : Plan) → (validate lower fold p ≡ none) ↔ IsValid p
  unfolding validate validate_artifacts
  validate-IsValid p = (
    λ h.
        let known = map (λ s. s.id) p.steps in
        let (arts, h1) = before-none.0 h in
        let (few, listed) = before-none.0 arts in
        let (arts_ok, fresh, paths) = (artifact_faults_iff 0 [] p.artifacts).0 listed in
        let (goal, h2) = before-none.0 h1 in
        let (present, h3) = before-none.0 h2 in
        let (steps, h4) = before-none.0 h3 in
        let (steps_ok, fresh_ids, ids) = (step_faults_iff lower fold 0 [] p.steps).0 steps in
        let (resolved, h5) = before-none.0 h4 in
        let (resolved_ok, fresh_failures, failures) =
          (resolution_faults_iff 0 known [] p.resolved_failures).0 resolved in
        let (edges, h6) = before-none.0 h5 in
        let (cycle, h7) = before-none.0 h6 in
        let (progress, dispositions) = before-none.0 h7 in
        record {
          few_artifacts = (check-none _).0 few;
          artifacts = arts_ok;
          paths = paths;
          goal = (check-none _).0 goal;
          some_steps = (check-none _).0 present;
          steps = steps_ok;
          ids = ids;
          edges = (edge_faults_iff 0 known p.steps).0 edges;
          acyclic = (cycle_fault_iff p.steps).0 cycle;
          progress = (progress_faults_iff 0 p.steps p.steps).0 progress;
          resolutions = resolved_ok;
          failures = failures;
          dispositions = (disposition_faults_iff 0 p.steps p.resolved_failures).0 dispositions;
        },
    λ v.
        let known = map (λ s. s.id) p.steps in
        before-none.1 (
          before-none.1 (
            (check-none _).1 v.few_artifacts,
            (artifact_faults_iff 0 [] p.artifacts).1
                (v.artifacts, FreshText-nil (λ a. path_key a.path) p.artifacts, v.paths),
          ),
          before-none.1 (
            (check-none _).1 v.goal,
            before-none.1 (
              (check-none _).1 v.some_steps,
              before-none.1 (
                (step_faults_iff lower fold 0 [] p.steps).1
                    (v.steps, Fresh-nil (λ s. s.id) p.steps, v.ids),
                before-none.1 (
                  (resolution_faults_iff 0 known [] p.resolved_failures).1 (
                    v.resolutions,
                    FreshText-nil (λ r. trim_space r.failure_id) p.resolved_failures,
                    v.failures,
                  ),
                  before-none.1 (
                    (edge_faults_iff 0 known p.steps).1 v.edges,
                    before-none.1 (
                      (cycle_fault_iff p.steps).1 v.acyclic,
                      before-none.1 (
                        (progress_faults_iff 0 p.steps p.steps).1 v.progress,
                        (disposition_faults_iff 0 p.steps p.resolved_failures).1 v.dispositions,
                      ),
                    ),
                  ),
                ),
              ),
            ),
          ),
        ),
  )

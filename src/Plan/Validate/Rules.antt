-- ===== src/Plan/Validate/Rules.antt =====
-- The other loops of Validate of internal/plan/plan.go and of internal/plan/artifacts.go, and what
-- each accepts.
use collomia.Common.{
  ℕ, suc, List, [], ◌∷◌, Option, none, some, str_eq, if◌then◌else◌, Bool, true, false, not, ◌||◌,
  ◌≡◌, ◌≢◌, ◌⊎◌, ◌↔◌, inl, inr, refl, arith, All, Distinct, Bool-cases,
}
use collomia.Common.Text.{Codes, trim_space}
use collomia.Common.Int.{ℤ, has_int}
use collomia.Plan.Data.{Step, FailureResolution, Artifact}
use collomia.Plan.Validate.{
  Fault, check, before-none, check-none, is_blank, bad_path, path_key, artifact_faults, is_recovery,
  resolution_faults, dependency_faults, edge_faults, is_met, is_started, state_of, unmet_faults,
  progress_faults, fits, disposition_faults, bad_recovery, bad_disposition,
}
use collomia.Plan.Validate.Fresh.{
  int_eq-false, not-false, Fresh-nil, Fresh, Fresh-cons, FreshText, FreshText-cons,
}

pub record ArtifactOk (a : Artifact) : Type 0 where
  pub path : bad_path a.path ≡ false
  pub role : (str_eq a.role "deliverable" || str_eq a.role "scratch") ≡ true

pub artifact_faults_iff :
    (i : ℕ) (seen : List Codes) (arts : List Artifact)
    → (artifact_faults i seen arts ≡ none) ↔ (
        All ArtifactOk arts
        × FreshText (λ a. path_key a.path) seen arts
        × Distinct (λ a. path_key a.path) arts)
unfolding artifact_faults
artifact_faults_iff i seen [] = (λ h. (tt, tt, tt), λ h. refl)
artifact_faults_iff i seen (a ∷ arts) = (
  λ h.
      let (path, h1) = before-none.0 h in
      let (role, h2) = before-none.0 h1 in
      let (fresh, h3) = before-none.0 h2 in
      let (oks, later, distinct) =
        (artifact_faults_iff (suc i) (path_key a.path ∷ seen) arts).0 h3 in
      let (others, freshs) =
        (FreshText-cons (λ a. path_key a.path) seen (path_key a.path) arts).0 later in
      (
        (record { path = (check-none _).0 path; role = ground arith }, oks),
        ((check-none _).0 fresh, freshs),
        (others, distinct),
      ),
  λ ((ok, oks), (fresh, freshs), (others, distinct)). before-none.1 (
    (check-none _).1 ok.path,
    before-none.1 (
      ground (arith, ok.role),
      before-none.1 (
        (check-none _).1 fresh,
        (artifact_faults_iff (suc i) (path_key a.path ∷ seen) arts).1 (
          oks,
          (FreshText-cons (λ a. path_key a.path) seen (path_key a.path) arts).1 (others, freshs),
          distinct,
        ),
      ),
    ),
  ),
)

-- A recovery names the call that recovered, another disposition names none.
pub record ResolutionOk (known : List ℤ) (r : FailureResolution) : Type 0 where
  pub failure : is_blank r.failure_id ≡ false
  pub step : has_int known r.step_id ≡ true
  pub evident : is_blank r.evidence ≡ false
  pub recovery :
      ((is_recovery r.disposition ≡ true) × (is_blank r.recovery_tool_call_id ≡ false))
      ⊎ ((is_recovery r.disposition ≡ false)
          × ((str_eq r.disposition "skipped_unnecessary" || str_eq r.disposition "blocked") ≡ true)
          × (is_blank r.recovery_tool_call_id ≡ true))

recovery_fault_iff :
    (i : ℕ) (r : FailureResolution)
    → ((if is_recovery r.disposition
          then check (is_blank r.recovery_tool_call_id) (bad_recovery i)
          else if str_eq r.disposition "skipped_unnecessary" || str_eq r.disposition "blocked"
          then check (not (is_blank r.recovery_tool_call_id)) (bad_recovery i)
          else some (bad_disposition i r.disposition))
        ≡ none)
      ↔ (((is_recovery r.disposition ≡ true) × (is_blank r.recovery_tool_call_id ≡ false))
          ⊎ ((is_recovery r.disposition ≡ false)
              × ((str_eq r.disposition "skipped_unnecessary" || str_eq r.disposition "blocked")
                  ≡ true)
              × (is_blank r.recovery_tool_call_id ≡ true)))
recovery_fault_iff i r = (
  λ h. elim (Bool-cases (is_recovery r.disposition)) [
    | inl e ↦ inl (e, ground arith)
    | inr e ↦ inr (e, ground arith, ground arith)
  ],
  λ h. elim h [ inl (e, f) ↦ ground arith | inr (e, f, g) ↦ ground arith ],
)

dependency_faults_iff :
    (i : ℕ) (known : List ℤ) (id : ℤ) (seen ds : List ℤ)
    → (dependency_faults i known id seen ds ≡ none) ↔ (
        All (λ d. (has_int known d ≡ true) × (d ≢ id)) ds
        × Fresh (λ d. d) seen ds
        × Distinct (λ d. d) ds)
unfolding dependency_faults
dependency_faults_iff i known id seen [] = (λ h. (tt, tt, tt), λ h. refl)
dependency_faults_iff i known id seen (d ∷ ds) = (
  λ h.
      let (there, h1) = before-none.0 h in
      let (other, h2) = before-none.0 h1 in
      let (fresh, h3) = before-none.0 h2 in
      let (oks, later, distinct) = (dependency_faults_iff i known id (d ∷ seen) ds).0 h3 in
      let (others, freshs) = (Fresh-cons (λ d. d) seen d ds).0 later in
      (
        ((not-false ((check-none _).0 there), (int_eq-false d id).0 ((check-none _).0 other)), oks),
        ((check-none _).0 fresh, freshs),
        (others, distinct),
      ),
  λ (((there, other), oks), (fresh, freshs), (others, distinct)). before-none.1 (
    (check-none _).1 (rw there refl),
    before-none.1 (
      (check-none _).1 ((int_eq-false d id).1 other),
      before-none.1 (
        (check-none _).1 fresh,
        (dependency_faults_iff i known id (d ∷ seen) ds).1
            (oks, (Fresh-cons (λ d. d) seen d ds).1 (others, freshs), distinct),
      ),
    ),
  ),
)

pub resolution_faults_iff :
    (i : ℕ) (known : List ℤ) (seen : List Codes) (rs : List FailureResolution)
    → (resolution_faults i known seen rs ≡ none) ↔ (
        All (ResolutionOk known) rs
        × FreshText (λ r. trim_space r.failure_id) seen rs
        × Distinct (λ r. trim_space r.failure_id) rs)
unfolding resolution_faults is_blank
resolution_faults_iff i known seen [] = (λ h. (tt, tt, tt), λ h. refl)
resolution_faults_iff i known seen (r ∷ rs) = (
  λ h.
      let (failure, h1) = before-none.0 h in
      let (fresh, h2) = before-none.0 h1 in
      let (step, h3) = before-none.0 h2 in
      let (evident, h4) = before-none.0 h3 in
      let (recovery, h5) = before-none.0 h4 in
      let (oks, later, distinct) =
        (resolution_faults_iff (suc i) known (trim_space r.failure_id ∷ seen) rs).0 h5 in
      let (others, freshs) =
        (FreshText-cons (λ r. trim_space r.failure_id) seen (trim_space r.failure_id) rs).0 later in
      (
        (
          record {
            failure = (check-none _).0 failure;
            step = not-false ((check-none _).0 step);
            evident = (check-none _).0 evident;
            recovery = (recovery_fault_iff i r).0 recovery;
          },
          oks,
        ),
        ((check-none _).0 fresh, freshs),
        (others, distinct),
      ),
  λ ((ok, oks), (fresh, freshs), (others, distinct)). before-none.1 (
    (check-none _).1 ok.failure,
    before-none.1 (
      (check-none _).1 fresh,
      before-none.1 (
        (check-none _).1 (rw ok.step refl),
        before-none.1 (
          (check-none _).1 ok.evident,
          before-none.1 (
            (recovery_fault_iff i r).1 ok.recovery,
            (resolution_faults_iff (suc i) known (trim_space r.failure_id ∷ seen) rs).1 (
              oks,
              (FreshText-cons (λ r. trim_space r.failure_id) seen (trim_space r.failure_id) rs).1
                  (others, freshs),
              distinct,
            ),
          ),
        ),
      ),
    ),
  ),
)

-- A step depends on other steps of the plan, on each once.
pub record EdgesOk (known : List ℤ) (s : Step) : Type 0 where
  pub others : All (λ d. (has_int known d ≡ true) × (d ≢ s.id)) s.depends_on
  pub once : Distinct (λ d. d) s.depends_on

pub edge_faults_iff :
    (i : ℕ) (known : List ℤ) (ss : List Step)
    → (edge_faults i known ss ≡ none) ↔ All (EdgesOk known) ss
unfolding edge_faults
edge_faults_iff i known [] = (λ h. tt, λ h. refl)
edge_faults_iff i known (s ∷ ss) = (
  λ h.
      let (here, rest) = before-none.0 h in
      let (others, fresh, once) = (dependency_faults_iff i known s.id [] s.depends_on).0 here in
      (record { others = others; once = once }, (edge_faults_iff (suc i) known ss).0 rest),
  λ (ok, oks). before-none.1 (
    (dependency_faults_iff i known s.id [] s.depends_on).1
        (ok.others, Fresh-nil (λ d. d) s.depends_on, ok.once),
    (edge_faults_iff (suc i) known ss).1 oks,
  ),
)

if-true : {b : Bool} {x : Option Fault} → b ≡ true → (if b then x else none) ≡ none → x ≡ none
if-true {b = true} e h = h
if-true {b = false} e h = cc

unmet_faults_iff :
    (i : ℕ) (steps : List Step) (ds : List ℤ)
    → (unmet_faults i steps ds ≡ none) ↔ All (λ d. is_met (state_of steps d) ≡ true) ds
unfolding unmet_faults
unmet_faults_iff i steps [] = (λ h. tt, λ h. refl)
unmet_faults_iff i steps (d ∷ ds) = (
  λ h.
      let (here, rest) = before-none.0 h in
      (not-false ((check-none _).0 here), (unmet_faults_iff i steps ds).0 rest),
  λ (met, rest).
      before-none.1 ((check-none _).1 (rw met refl), (unmet_faults_iff i steps ds).1 rest),
)

-- A step that was started has only dependencies that are met.
abbrev pub Ready : List Step → Step → Type 0
Ready steps s =
    is_started s.status ≡ true → All (λ d. is_met (state_of steps d) ≡ true) s.depends_on

pub progress_faults_iff :
    (i : ℕ) (steps ss : List Step) → (progress_faults i steps ss ≡ none) ↔ All (Ready steps) ss
unfolding progress_faults
progress_faults_iff i steps [] = (λ h. tt, λ h. refl)
progress_faults_iff i steps (s ∷ ss) = (
  λ h.
      let (here, rest) = before-none.0 h in
      (
        λ e. (unmet_faults_iff i steps s.depends_on).0 (if-true e here),
        (progress_faults_iff (suc i) steps ss).0 rest,
      ),
  λ (ready, rest). elim (Bool-cases (is_started s.status)) [
    | inl e ↦ before-none.1 (
      ground (arith, (unmet_faults_iff i steps s.depends_on).1 (ready e)),
      (progress_faults_iff (suc i) steps ss).1 rest,
    )
    | inr e ↦ before-none.1 (ground arith, (progress_faults_iff (suc i) steps ss).1 rest)
  ],
)

pub disposition_faults_iff :
    (i : ℕ) (steps : List Step) (rs : List FailureResolution)
    → (disposition_faults i steps rs ≡ none)
      ↔ All (λ r. fits r.disposition (state_of steps r.step_id) ≡ true) rs
unfolding disposition_faults
disposition_faults_iff i steps [] = (λ h. tt, λ h. refl)
disposition_faults_iff i steps (r ∷ rs) = (
  λ h.
      let (here, rest) = before-none.0 h in
      (not-false ((check-none _).0 here), (disposition_faults_iff (suc i) steps rs).0 rest),
  λ (met, rest).
      before-none.1
        ((check-none _).1 (rw met refl), (disposition_faults_iff (suc i) steps rs).1 rest),
)

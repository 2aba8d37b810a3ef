-- ===== src/Plan/Validate/Steps.antt =====
-- The loop of Validate of internal/plan/plan.go over the steps, and what it accepts.
use collomia.Common.{
  ℕ, suc, List, [], ◌∷◌, none, str_eq, true, false, is_empty, ◌≡◌, ◌≢◌, ◌↔◌, inl, inr, refl, arith,
  All, Distinct, Bool-cases,
}
use collomia.Common.Text.{Codes}
use collomia.Common.Int.{ℤ, pos, has_int}
use collomia.Writescope.{Normalized, normal, failed, normalize, is_whole}
use collomia.Plan.Data.{Step}
use collomia.Plan.Validate.Fresh.{
  int_eq-false, not-false, and-false, and-false_of, Fresh, Fresh-cons,
}
use collomia.Plan.Validate.{
  before-none, check-none, is_blank, is_known, is_closed, is_serial, acceptance_faults, scope_fault,
  narrow_fault, execution_fault, step_fault, step_faults,
}

acceptance_faults_iff :
    (i j : ℕ) (cs : List Codes)
    → (acceptance_faults i j cs ≡ none) ↔ All (λ c. is_blank c ≡ false) cs
unfolding acceptance_faults
acceptance_faults_iff i j [] = (λ h. tt, λ h. refl)
acceptance_faults_iff i j (c ∷ cs) = (
  λ h. (ground arith, (acceptance_faults_iff i (suc j) cs).0 (ground arith)),
  λ (b, bs). ground (arith, (acceptance_faults_iff i (suc j) cs).1 bs),
)

module _ (lower fold : ℕ → ℕ) where
  -- A step runs in the serial lane without scopes, or isolated with scopes that are narrower than
  -- the workspace.
  pub data Placed (s : Step) : Type 0 where
    serial : is_serial s.execution ≡ true → is_empty s.write_paths ≡ true → Placed s
    isolated :
        (scopes : List Codes)
        → is_serial s.execution ≡ false
        → str_eq s.execution "isolated_write" ≡ true
        → is_empty s.write_paths ≡ false
        → normalize lower fold s.write_paths true ≡ normal scopes
        → is_whole scopes ≡ false
        → Placed s

  pub record StepOk (s : Step) : Type 0 where
    pub numbered : s.id ≢ pos 0
    pub titled : is_blank s.title ≡ false
    pub criteria : All (λ c. is_blank c ≡ false) s.acceptance
    pub placed : Placed s
    pub known : is_known s.status ≡ true
    pub evident : is_closed s.status ≡ true → is_blank s.evidence ≡ false

  scope_fault-read :
      (i : ℕ) (paths : List Codes)
      → (scope_fault i (normalize lower fold paths false) ≡ none) ↔ (is_empty paths ≡ true)
  unfolding normalize
  scope_fault-read i [] = (λ h. refl, λ h. refl)
  scope_fault-read i (p ∷ ps) = (λ h. cc, λ h. cc)

  narrow_fault-none :
      (i : ℕ) (n : Normalized)
      → narrow_fault i n ≡ none
      → (scopes : List Codes) × (n ≡ normal scopes) × (is_whole scopes ≡ false)
  narrow_fault-none i (failed e) h = cc
  narrow_fault-none i (normal scopes) h = (scopes, refl, ground arith)

  execution_fault-Placed : (i : ℕ) (s : Step) → execution_fault lower fold i s ≡ none → Placed s
  unfolding execution_fault
  execution_fault-Placed i s h = elim (Bool-cases (is_serial s.execution)) [
    | inl e ↦ serial e ((scope_fault-read i s.write_paths).0 (ground arith))
    | inr e ↦
        let (scopes, n, w) =
          narrow_fault-none i (normalize lower fold s.write_paths true) (ground arith) in
        isolated scopes e (ground arith) (ground arith) n w
  ]

  execution_fault_of_Placed : (i : ℕ) (s : Step) → Placed s → execution_fault lower fold i s ≡ none
  unfolding execution_fault
  execution_fault_of_Placed i s (serial e k) =
      ground (arith, (scope_fault-read i s.write_paths).1 k)
  execution_fault_of_Placed i s (isolated scopes e f k n w) =
      let fits : narrow_fault i (normalize lower fold s.write_paths true) ≡ none =
        rw n (ground arith) in
      ground arith

  step_fault_iff :
      (i : ℕ) (seen : List ℤ) (s : Step)
      → (step_fault lower fold i seen s ≡ none) ↔ (StepOk s × (has_int seen s.id ≡ false))
  unfolding step_fault
  step_fault_iff i seen s = (
    λ h.
        let (zeroed, h1) = before-none.0 h in
        let (titled, h2) = before-none.0 h1 in
        let (fresh, h3) = before-none.0 h2 in
        let (criteria, h4) = before-none.0 h3 in
        let (placed, h5) = before-none.0 h4 in
        let (known, h6) = before-none.0 h5 in
        (
          record {
            numbered = (int_eq-false s.id (pos 0)).0 ((check-none _).0 zeroed);
            titled = (check-none _).0 titled;
            criteria = (acceptance_faults_iff i 0 s.acceptance).0 criteria;
            placed = execution_fault-Placed i s placed;
            known = not-false ((check-none _).0 known);
            evident = λ c. and-false c ((check-none _).0 h6);
          },
          (check-none _).0 fresh,
        ),
    λ (ok, fresh). before-none.1 (
      (check-none _).1 ((int_eq-false s.id (pos 0)).1 ok.numbered),
      before-none.1 (
        (check-none _).1 ok.titled,
        before-none.1 (
          (check-none _).1 fresh,
          before-none.1 (
            (acceptance_faults_iff i 0 s.acceptance).1 ok.criteria,
            before-none.1 (
              execution_fault_of_Placed i s ok.placed,
              before-none.1
                  ((check-none _).1 (rw ok.known refl), (check-none _).1 (and-false_of ok.evident)),
            ),
          ),
        ),
      ),
    ),
  )

  pub step_faults_iff :
      (i : ℕ) (seen : List ℤ) (ss : List Step)
      → (step_faults lower fold i seen ss ≡ none)
        ↔ (All StepOk ss × Fresh (λ s. s.id) seen ss × Distinct (λ s. s.id) ss)
  unfolding step_faults
  step_faults_iff i seen [] = (λ h. (tt, tt, tt), λ h. refl)
  step_faults_iff i seen (s ∷ ss) = (
    λ h.
        let (first, rest) = before-none.0 h in
        let (ok, fresh) = (step_fault_iff i seen s).0 first in
        let (oks, later, distinct) = (step_faults_iff (suc i) (s.id ∷ seen) ss).0 rest in
        let (others, freshs) = (Fresh-cons (λ s. s.id) seen s.id ss).0 later in
        ((ok, oks), (fresh, freshs), (others, distinct)),
    λ ((ok, oks), (fresh, freshs), (others, distinct)). before-none.1 (
      (step_fault_iff i seen s).1 (ok, fresh),
      (step_faults_iff (suc i) (s.id ∷ seen) ss).1
          (oks, (Fresh-cons (λ s. s.id) seen s.id ss).1 (others, freshs), distinct),
    ),
  )

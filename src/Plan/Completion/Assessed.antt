-- ===== src/Plan/Completion/Assessed.antt =====
-- What each state of AssessCompletion of internal/plan/plan.go says of the plan.
use collomia.Common.{
  ℕ, List, [], ◌∷◌, ◌++◌, Option, none, some, String, str_eq, Bool, true, false, ◌&&◌, ◌||◌, all,
  any, is_empty, ◌≡◌, ◌↔◌, inl, inr, refl, sym, ap, subst, arith, All, ◌⊎◌, ◌∙◌, eq_iff, Bool-cases,
}
use collomia.Common.Int.{ℤ}
use collomia.Plan.Data.{Step, Plan}
use collomia.Plan.Validate.{Fault, is_blank, is_known, is_closed, is_met, validate}
use collomia.Plan.Validate.Steps.{StepOk}
use collomia.Plan.Validate.Valid.{IsValid, validate-IsValid}
use collomia.Plan.Completion.{
  ready, incomplete, blocked, Issue, unfinished, Completion, assess_status, assess_step, add_issue,
  assess_steps, conclude, assess_checked, assess_completion,
}

known-cases :
    (status : String)
    → is_known status ≡ true
    → (status ≡ "pending")
      ⊎ (status ≡ "in_progress")
      ⊎ (status ≡ "done")
      ⊎ (status ≡ "blocked")
      ⊎ (status ≡ "skipped")
known-cases status h = elim (Bool-cases (str_eq status "pending")) [
  | inl e ↦ inl ((eq_iff _ _).0 e)
  | inr e ↦ elim (Bool-cases (str_eq status "in_progress")) [
    | inl f ↦ inr (inl ((eq_iff _ _).0 f))
    | inr f ↦ elim (Bool-cases (str_eq status "done")) [
      | inl g ↦ inr (inr (inl ((eq_iff _ _).0 g)))
      | inr g ↦ elim (Bool-cases (str_eq status "blocked")) [
        | inl k ↦ inr (inr (inr (inl ((eq_iff _ _).0 k))))
        | inr k ↦ inr (inr (inr (inr ((eq_iff status "skipped").0 (ground arith)))))
      ]
    ]
  ]
]

-- A closed step with evidence adds no issue, and an open one always does.
abbrev Assessed : ℤ → String → Option Issue × Bool → Type 0
Assessed id status r =
    ((is_closed status ≡ true) × (r ≡ (none, str_eq status "blocked")))
    ⊎ ((is_closed status ≡ false)
        × (str_eq status "blocked" ≡ false)
        × (r ≡ (some (unfinished id status), false)))

assess_status-Assessed :
    (id : ℤ) (status : String) (blank : Bool)
    → is_known status ≡ true
    → (is_closed status ≡ true → blank ≡ false)
    → Assessed id status (assess_status id status blank)
assess_status-Assessed id status blank h evident = elim (known-cases status h) [
  | inl e ↦ rw e (inr (refl, refl, refl))
  | inr (inl e) ↦ rw e (inr (refl, refl, refl))
  | inr (inr (inl e)) ↦ rw (e, evident (rw e refl)) (inl (refl, refl))
  | inr (inr (inr (inl e))) ↦ rw (e, evident (rw e refl)) (inl (refl, refl))
  | inr (inr (inr (inr e))) ↦ rw (e, evident (rw e refl)) (inl (refl, refl))
]

is_empty-snoc {ℓ} : {A : Type ℓ} (xs : List A) (x : A) → is_empty (xs ++ x ∷ []) ≡ false
is_empty-snoc [] x = refl
is_empty-snoc (y ∷ ys) x = refl

abbrev all_closed : List Step → Bool
all_closed ss = all (λ s. is_closed s.status) ss

abbrev any_blocked : List Step → Bool
any_blocked ss = any (λ s. str_eq s.status "blocked") ss

module _ (lower fold : ℕ → ℕ) where
  assess_steps-turn :
      (issues : List Issue) (stuck : Bool) (s : Step) (ss : List Step) {r : Option Issue × Bool}
      → assess_step s ≡ r
      → assess_steps issues stuck (s ∷ ss) ≡ assess_steps (add_issue issues r.0) (stuck || r.1) ss
  unfolding assess_steps
  assess_steps-turn issues stuck s ss e =
      ap (λ r. assess_steps (add_issue issues r.0) (stuck || r.1) ss) e

  assess_steps-all :
      (issues : List Issue) (stuck : Bool) (ss : List Step)
      → All (StepOk lower fold) ss
      → (is_empty (assess_steps issues stuck ss).0 ≡ (is_empty issues && all_closed ss))
        × ((assess_steps issues stuck ss).1 ≡ (stuck || any_blocked ss))
  unfolding assess_steps assess_step
  assess_steps-all issues stuck [] ok = (ground arith, ground arith)
  assess_steps-all issues stuck (s ∷ ss) (ok, oks) =
      elim (assess_status-Assessed s.id s.status (is_blank s.evidence) ok.known ok.evident) [
        | inl (closed, e) ↦
            let (empty, stops) =
              assess_steps-all issues (stuck || str_eq s.status "blocked") ss oks in
            let turn = assess_steps-turn issues stuck s ss e in
            (
              ap (λ r. is_empty r.0) turn ∙ ground (arith, empty, closed),
              ap (λ r. r.1) turn ∙ ground (arith, stops),
            )
        | inr (open_step, free, e) ↦
            let added = issues ++ unfinished s.id s.status ∷ [] in
            let (empty, stops) = assess_steps-all added (stuck || false) ss oks in
            let turn = assess_steps-turn issues stuck s ss e in
            (
              ap (λ r. is_empty r.0) turn
                  ∙ ground
                      (arith, empty, open_step, is_empty-snoc issues (unfinished s.id s.status)),
              ap (λ r. r.1) turn ∙ ground (arith, stops, free),
            )
      ]

  met-not_blocked :
      (status : String)
      → ((is_closed status ≡ true) × (str_eq status "blocked" ≡ false)) ↔ (is_met status ≡ true)
  met-not_blocked status = (
    λ (c, b). ground arith,
    λ m. elim (Bool-cases (str_eq status "blocked")) [
      | inl e ↦
          let same = (eq_iff status "blocked").0 e in
          let no : is_met "blocked" ≡ true = subst (λ x. is_met x ≡ true) same m in cc
      | inr e ↦ (ground arith, e)
    ],
  )

  all_met :
      (ss : List Step)
      → ((all_closed ss ≡ true) × (any_blocked ss ≡ false)) ↔ (All (λ s. is_met s.status ≡ true) ss)
  all_met [] = (λ h. tt, λ h. (refl, refl))
  all_met (s ∷ ss) = (
    λ (c, b). (
      (met-not_blocked s.status).0 (ground arith, ground arith),
      (all_met ss).0 (ground arith, ground arith),
    ),
    λ (m, ms).
        let (c, b) = (met-not_blocked s.status).1 m in
        let (cs, bs) = (all_met ss).1 ms in (ground arith, ground arith),
  )

  -- What each state of the assessment of a plan says.
  pub record IsAssessed (p : Plan) (c : Completion) : Type 0 where
    pub finished :
        (c.state ≡ ready) ↔ (IsValid lower fold p × All (λ s. is_met s.status ≡ true) p.steps)
    pub stuck :
        (c.state ≡ blocked)
        ↔ (IsValid lower fold p × (all_closed p.steps ≡ true) × (any_blocked p.steps ≡ true))
    pub explained : (c.state ≡ incomplete) ↔ (is_empty c.issues ≡ false)

  conclude-IsAssessed :
      (p : Plan) (r : List Issue × Bool)
      → IsValid lower fold p
      → is_empty r.0 ≡ all_closed p.steps
      → r.1 ≡ any_blocked p.steps
      → IsAssessed p (conclude r)
  conclude-IsAssessed p ([], false) v empty stops = record {
    finished = (λ h. (v, (all_met p.steps).0 (sym empty, sym stops)), λ h. refl);
    stuck = (λ h. cc, λ h. ground arith);
    explained = (λ h. cc, λ h. cc);
  }
  conclude-IsAssessed p ([], true) v empty stops = record {
    finished = (λ h. cc, λ (w, m). let (c, b) = (all_met p.steps).1 m in ground arith);
    stuck = (λ h. (v, sym empty, sym stops), λ h. refl);
    explained = (λ h. cc, λ h. cc);
  }
  conclude-IsAssessed p (i ∷ is, b) v empty stops = record {
    finished = (λ h. cc, λ (w, m). let (c, k) = (all_met p.steps).1 m in ground arith);
    stuck = (λ h. cc, λ (w, c, k). ground arith);
    explained = (λ h. refl, λ h. refl);
  }

  assess_checked-IsAssessed :
      (p : Plan) (o : Option Fault)
      → (o ≡ none) ↔ IsValid lower fold p
      → IsAssessed p (assess_checked o p.steps)
  assess_checked-IsAssessed p none valid =
      let v = valid.0 refl in
      let (empty, stops) = assess_steps-all [] false p.steps v.steps in
      conclude-IsAssessed p (assess_steps [] false p.steps) v (ground (arith, empty))
        (ground (arith, stops))
  assess_checked-IsAssessed p (some f) valid = record {
    finished = (λ h. cc, λ (v, m). let no = valid.1 v in cc);
    stuck = (λ h. cc, λ (v, c, k). let no = valid.1 v in cc);
    explained = (λ h. refl, λ h. refl);
  }

  -- A plan is ready exactly when it is valid and every step is done or skipped, blocked exactly when
  -- it is valid, every step is closed and one is blocked, and otherwise it has an issue.
  pub assess_completion-IsAssessed :
      (p : Plan) → IsAssessed p (assess_completion lower fold (some p))
  unfolding assess_completion
  assess_completion-IsAssessed p =
      assess_checked-IsAssessed p (validate lower fold p) (validate-IsValid lower fold p)

-- ===== src/GoalGraph/Reach/Terminal.antt =====
-- internal/goalgraph/graph.go: operations on a graph with an outcome.
use collomia.Common.{
  Bool, true, false, not, ◌||◌, none, ◌≡◌, refl, inl, inr, arith, Option-cases, if_elim,
}
use collomia.Common.Text.{Codes, text_eq}
use collomia.GoalGraph.Data.{Attempt, WorkUsage, Graph, Result, runs, over}
use collomia.GoalGraph.Slots.{count-pos}
use collomia.GoalGraph.Start.{Call, start_next}
use collomia.GoalGraph.Tools.{on_attempt, running_attempt, begin_tool}
use collomia.GoalGraph.Results.{finish_tool, record_failure}
use collomia.GoalGraph.Propose.{propose_completion, block_active}
use collomia.GoalGraph.Operator.{
  record_primary_usage, exhaust_budget, enforce_aggregate_budget, activate, request_pause,
  reach_pause, resume, cancel,
}
use collomia.GoalGraph.Budget.{is_no_usage, valid_work_usage}
use collomia.GoalGraph.Recover.{recover}
use collomia.GoalGraph.Lane.Invariant.{Inv}
use collomia.GoalGraph.Lane.Ends.{no_node→no_attempt}
use collomia.GoalGraph.Lane.Work.{running_attempt_lem}
use collomia.GoalGraph.Reach.{
  Op, starts, begins, finishes, fails, proposes, blocks, charges, exhausts, enforces, activates,
  requests_pause, reaches_pause, resumes, retries, cancels, recovers, step,
}

abbrev pub is_retry : Op → Bool
is_retry (retries i) = true
is_retry _ = false

module _ (c : Call) {g : Graph} (v : Inv g) (ended : over g ≡ true) where
  no_attempt : (i : Codes) → running_attempt g i ≡ none
  no_attempt i = elim (Option-cases (running_attempt g i)) [
    | inl e ↦ e
    | inr (a, e) ↦
        let (found, on) = running_attempt_lem c v i e in
        let idle = no_node→no_attempt g.attempts g.nodes v.lane (v.quiet ended).no_node in
        absurd (omega (arith, count-pos (λ x. text_eq x.id i) runs g.attempts found on, idle))
  ]

  on_none {ℓ} :
      {A : Type ℓ} (i : Codes) (k : Attempt → Graph × Result A)
      → (on_attempt g (running_attempt g i) k).0 ≡ g
  on_none i k = rw (no_attempt i) refl

  uncharged : (u : WorkUsage) → (record_primary_usage c u g).0 ≡ g
  unfolding record_primary_usage
  uncharged u =
      let P : Graph × Result (Unit {0}) → Type 0 = λ r. r.0 ≡ g in
      let stop : is_no_usage u || over g ≡ true = ground arith in
      if_elim P (not (valid_work_usage u)) (λ e. refl) (λ e. rw stop refl)

  -- Once a graph between two operations has an outcome, no method of the primary lane changes
  -- anything of it, except that RetryNode may reopen it.
  pub step_terminal : (o : Op) → is_retry o ≡ false → step c o g ≡ g
  unfolding step start_next begin_tool finish_tool record_failure propose_completion block_active
      record_primary_usage exhaust_budget enforce_aggregate_budget activate request_pause
      reach_pause resume cancel recover
  step_terminal (starts token) h = rw (ended, step) refl
  step_terminal (begins i action token) h = on_none i _
  step_terminal (finishes i r) h = on_none i _
  step_terminal (fails i f) h = on_none i _
  step_terminal (proposes summary token) h = rw (ended, step) refl
  step_terminal (blocks i reason) h = on_none i _
  step_terminal (charges u) h = uncharged u
  step_terminal exhausts h = rw (ended, step) refl
  step_terminal enforces h = rw (ended, step) refl
  step_terminal activates h = rw (ended, step) refl
  step_terminal requests_pause h = rw (ended, step) refl
  step_terminal reaches_pause h = rw ((v.quiet ended).not_requested, step) refl
  step_terminal resumes h = rw (ended, step) refl
  step_terminal (retries i) h = cc
  step_terminal cancels h = rw (ended, step) refl
  step_terminal (recovers token) h = rw (ended, step) refl

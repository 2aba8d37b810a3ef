-- ===== src/GoalGraph/Lane/Judge.antt =====
-- internal/goalgraph/graph.go: that the judgement of a proposed completion keeps what holds between
-- two operations.
use collomia.Common.{
  ℕ, Bool, true, false, not, ◌&&◌, ◌||◌, List, any, is_empty, length, ltb, Option, none, some,
  if◌then◌else◌, ◌≡◌, refl, sym, ◌∙◌, if_elim, subst,
}
use collomia.Common.Text.{Codes, text_eq, trim_space, byte_len}
use collomia.GoalGraph.Data.{
  NodeState, Node, AttemptState, Attempt, GapKind, Evidence, Graph, runs, over,
}
use collomia.GoalGraph.Slots.{find, find-Mem}
use collomia.GoalGraph.Record.{add_evidence, unresolved_failures, all_retryable, is_authority}
use collomia.GoalGraph.Start.{Call, save, drifted}
use collomia.GoalGraph.Tools.{running_attempt, on_attempt}
use collomia.GoalGraph.Propose.{
  max_completion_interventions, with_id, write_back, end_attempt, release_node, finish_blocked,
  reopen, settle_failures, completion_gaps, deferred, defer_completion, node_result, accept_attempt,
  accept_node, record_accepted, accept, accept_completion, checked, judge, node_by, on_node,
  propose_completion, block_attempt, block_active,
}
use collomia.GoalGraph.Lane.Invariant.{Inv, After, guard-Inv}
use collomia.GoalGraph.Lane.Nodes.{refresh_ready-Inv, invalidate_unconsumed_reads-Inv}
use collomia.GoalGraph.Lane.Ends.{reduce_outcome-Inv}
use collomia.GoalGraph.Lane.Writes.{keep-Inv, write_back-Inv}
use collomia.GoalGraph.Lane.Noted.{Alike, add_evidence-Noted}
use collomia.GoalGraph.Lane.Work.{save-Inv, token-Inv, running_attempt_lem, on_running}

evidence-Inv :
    (b : Attempt) (m : Node) (es : List Evidence) (g : Graph)
    → Inv (write_back runs b m g)
    → Inv (write_back runs b m (record g { evidence = es }))
unfolding write_back
evidence-Inv b m es g v = record {
  lane = v.lane;
  distinct = v.distinct;
  bounded = v.bounded;
  quiet = v.quiet;
  paused = v.paused;
}

-- A running attempt that a pointer reaches, and its node.
module _ {g : Graph} (v : Inv g) (p : Attempt → Bool) {a : Attempt} {n : Node}
    (at : find p g.attempts ≡ some a) (on : runs a ≡ true)
    (here : find (with_id a.node_id) g.nodes ≡ some n) where
  -- The attempt itself may have gained a failure or an intervention since.
  pub finish_blocked-Inv :
      (now : ℕ) (b : Attempt) → b.node_id ≡ a.node_id → Inv (finish_blocked p now n b g)
  unfolding finish_blocked
  finish_blocked-Inv now b there =
      reduce_outcome-Inv now
        (write_back-Inv v p (end_attempt AttemptState.blocked now b)
          (release_node NodeState.blocked n) at on here refl there refl refl refl).0

module _ (c : Call) {g : Graph} (v : Inv g) {a : Attempt} {n : Node}
    (at : find runs g.attempts ≡ some a) (here : find (with_id a.node_id) g.nodes ≡ some n) where
  on : runs a ≡ true
  on = (find-Mem runs g.attempts at).1

  reopen-Inv : (b : Attempt) → b.node_id ≡ a.node_id → Inv (reopen c.now n b g)
  unfolding reopen
  reopen-Inv b there =
      refresh_ready-Inv
        (write_back-Inv v runs (end_attempt AttemptState.retryable c.now b)
          (release_node NodeState.retryable n) at on here refl there refl refl refl).0

  blocked-Inv :
      (b : Attempt) → b.node_id ≡ a.node_id → Inv (save c (finish_blocked runs c.now n b g))
  blocked-Inv b there = save-Inv c (finish_blocked-Inv v runs at on here c.now b there)

  settle_failures-Inv : (b : Attempt) → b.node_id ≡ a.node_id → After (settle_failures c n b g)
  unfolding settle_failures
  settle_failures-Inv b there =
      let fs = unresolved_failures b.failures in
      if_elim After (any (λ f. is_authority f.kind) fs) (λ e. blocked-Inv b there)
        (λ e.
          if_elim After (all_retryable fs && ltb (length n.attempt_ids) g.max_attempts_per_node)
            (λ f. save-Inv c (reopen-Inv b there)) (λ f. blocked-Inv b there))

  defer_completion-Inv :
      (gaps : List GapKind) (b : Attempt) → Alike b a → After (defer_completion c gaps n b g)
  unfolding defer_completion deferred
  defer_completion-Inv gaps b same =
      let d = deferred gaps b in
      if_elim After (ltb max_completion_interventions d.completion_interventions)
        (λ e. blocked-Inv d same.node_id)
        (λ e. save-Inv c (keep-Inv v runs d at on (rw same.state on) same.id same.node_id))

  record_accepted-Inv :
      (summary token : Codes) (b : Attempt)
      → Alike b a
      → Inv (record_accepted c summary token n b g)
  unfolding record_accepted
  record_accepted-Inv summary token b same =
      let e = node_result c.now summary token b in
      let noted =
        add_evidence-Noted c.new_id c.now e g {a = accept_attempt c.now b}
          (record { id = refl; node_id = refl; state = refl }) in
      let h = (add_evidence c.new_id c.now e g (accept_attempt c.now b)).0 in
      let d = (add_evidence c.new_id c.now e g (accept_attempt c.now b)).1 in
      let off : runs d ≡ false = rw noted.alike.state refl in
      let w : Inv (write_back runs d (accept_node b.id n) g) =
        (write_back-Inv v runs d (accept_node b.id n) at on here off
          (noted.alike.node_id ∙ same.node_id) refl refl refl).0 in
      subst (λ (k : Graph). Inv (write_back runs d (accept_node b.id n) k)) (sym noted.graph)
        (evidence-Inv d (accept_node b.id n) h.evidence g w)

  accept-Inv :
      (summary token : Codes) (b : Attempt) → Alike b a → Inv (accept c summary token n b g)
  unfolding accept
  accept-Inv summary token b same =
      let w =
        token-Inv (if is_empty token then g.workspace_token else token)
          (record_accepted-Inv summary token b same) in
      if_elim Inv b.may_have_mutated (λ e. invalidate_unconsumed_reads-Inv w n.id) (λ e. w)

  accept_completion-Inv :
      (summary token : Codes) (b : Attempt)
      → Alike b a
      → After (accept_completion c summary token n b g)
  unfolding accept_completion
  accept_completion-Inv summary token b same =
      save-Inv c (reduce_outcome-Inv c.now (refresh_ready-Inv (accept-Inv summary token b same)))

  judge-Inv : (summary token : Codes) → After (judge c summary token n a g)
  unfolding judge
  judge-Inv summary token =
      let b = checked c token g a in
      let same : Alike b a =
        if_elim (λ x. Alike x a) (drifted g token)
          (λ e. record { id = refl; node_id = refl; state = refl })
          (λ e. record { id = refl; node_id = refl; state = refl }) in
      if_elim After (not (is_empty (unresolved_failures b.failures)))
        (λ e. settle_failures-Inv b same.node_id)
        (λ e.
          if_elim After (not (is_empty (completion_gaps g b token)))
            (λ f. defer_completion-Inv (completion_gaps g b token) b same)
            (λ f. accept_completion-Inv summary token b same))

module _ (c : Call) {g : Graph} (v : Inv g) where
  pub propose_completion-Inv :
      (summary token : Codes) → After (propose_completion c summary token g)
  unfolding propose_completion
  propose_completion-Inv summary token =
      guard-Inv (over g) _ _ v (λ e. by_attempt (find runs g.attempts) refl)
    where
      by_node :
          (a : Attempt)
          → find runs g.attempts ≡ some a
          → (o : Option Node) → node_by g a.node_id ≡ o
          → After (on_node g o (λ n. judge c summary token n a g))
      by_node a at none here = v
      by_node a at (some n) here = judge-Inv c v at here summary token

      by_attempt :
          (o : Option Attempt)
          → find runs g.attempts ≡ o
          → After (
              on_attempt g o
                (λ a. on_node g (node_by g a.node_id) (λ n. judge c summary token n a g)))
      by_attempt none at = v
      by_attempt (some a) at = by_node a at (node_by g a.node_id) refl

  pub block_active-Inv : (i reason : Codes) → After (block_active c i reason g)
  unfolding block_active block_attempt
  block_active-Inv i reason = on_running c v i _ (λ a at. by_node a at (node_by g a.node_id) refl)
    where
      by_node :
          (a : Attempt)
          → running_attempt g i ≡ some a
          → (o : Option Node) → node_by g a.node_id ≡ o
          → After (on_node g o (block_attempt c i reason g a))
      by_node a at none here = v
      by_node a at (some n) here =
          let (found, on) = running_attempt_lem c v i at in
          guard-Inv (is_empty (trim_space reason) || ltb 4096 (byte_len (trim_space reason))) _ _ v
            (λ e.
              save-Inv c (finish_blocked-Inv v (λ x. text_eq x.id i) found on here c.now a refl))

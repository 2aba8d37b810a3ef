-- ===== src/GoalGraph/Lane/Control.antt =====
-- internal/goalgraph/graph.go: that the operator's commands, the budget and recovery keep what holds
-- between two operations.
use collomia.Common.{
  ℕ, ◌==◌, Bool, true, false, not, ◌&&◌, ◌||◌, map, any, is_empty, length, leb, Option, none, some,
  ◌≡◌, refl, sym, inl, arith, if_elim, subst, Distinct,
}
use collomia.Common.Int.{ℤ, int_eq→eq}
use collomia.Common.Text.{Codes}
use collomia.GoalGraph.Data.{
  NodeState, Node, Attempt, WorkUsage, Outcome, Graph, Result, is_running, is_blocked, is_in_review,
  is_some, runs, over,
}
use collomia.GoalGraph.Slots.{find, find-Mem}
use collomia.GoalGraph.Budget.{is_no_usage, valid_work_usage, over_budget}
use collomia.GoalGraph.Budget.Clock.{stop_active, start_active, clear_pause}
use collomia.GoalGraph.Start.{Call, drifted}
use collomia.GoalGraph.Propose.{with_id, node_by, release_node}
use collomia.GoalGraph.Operator.{
  within_budget, carry_on, finish, charged, charge, charge_attempt, in_primary_lane,
  record_primary_usage, exhaust_budget, enforce_aggregate_budget, activate, request_pause,
  reach_pause, resume, is_outcome_blocked, is_outcome_review, ended_blocked, ambiguous,
  last_attempt, reopen_node, retry, retry_attempt, retry_on, retry_node, cancel_nodes,
  cancel_attempt, cancel,
}
use collomia.GoalGraph.Recover.{recover_attempts, recovered, recover}
use collomia.GoalGraph.Lane.Same.{Same-write, Kept-idle}
use collomia.GoalGraph.Lane.Invariant.{Inv, After, guard-Inv}
use collomia.GoalGraph.Lane.Nodes.{nodes-Inv, refresh_ready-Inv, reopened-Inv}
use collomia.GoalGraph.Lane.Ends.{conclude-Inv, reduce_outcome-Inv, exhaust_aggregate-Inv}
use collomia.GoalGraph.Lane.Writes.{keep-Inv}
use collomia.GoalGraph.Lane.Sweep.{
  cancel_nodes-Swept, cancel_attempts-idle, recover_attempts-idle, recover_attempts-Swept,
}
use collomia.GoalGraph.Lane.Work.{save-Inv, invalidate_all_done-Inv}

module _ {g : Graph} (v : Inv g) where
  start_active-Inv : (now : ℕ) → Inv (start_active now g)
  unfolding start_active
  start_active-Inv now =
      if_elim Inv (not (over g) && not g.pause_reached && g.accounting.active_since == 0)
        (λ e. record {
          lane = v.lane;
          distinct = v.distinct;
          bounded = v.bounded;
          quiet = λ o. absurd (ground arith);
          paused = v.paused;
        })
        (λ e. v)

  clear_pause-Inv : Inv (clear_pause g)
  unfolding clear_pause
  clear_pause-Inv = record {
    lane = v.lane;
    distinct = v.distinct;
    bounded = v.bounded;
    quiet = λ o. record {
      no_node = (v.quiet o).no_node;
      not_requested = refl;
      not_reached = refl;
      clock_stands = (v.quiet o).clock_stands;
    };
    paused = λ e. cc;
  }

  stop_active-Inv : (now : ℕ) → Inv (stop_active now g)
  unfolding stop_active
  stop_active-Inv now =
      if_elim Inv (g.accounting.active_since == 0) (λ e. v)
        (λ e. record {
          lane = v.lane;
          distinct = v.distinct;
          bounded = v.bounded;
          quiet = λ o. record {
            no_node = (v.quiet o).no_node;
            not_requested = (v.quiet o).not_requested;
            not_reached = (v.quiet o).not_reached;
            clock_stands = refl;
          };
          paused = v.paused;
        })

  charge-Inv : (u : WorkUsage) → Inv (charge u g)
  charge-Inv u = record {
    lane = v.lane;
    distinct = v.distinct;
    bounded = v.bounded;
    quiet = v.quiet;
    paused = v.paused;
  }

  -- A pause asked for while the graph goes on.
  pause-Inv :
      (reached : Bool)
      → over g ≡ false
      → Inv (record g { pause_requested = true; pause_reached = reached })
  pause-Inv reached live = record {
    lane = v.lane;
    distinct = v.distinct;
    bounded = v.bounded;
    quiet = λ o. cc;
    paused = λ e. refl;
  }

module _ (c : Call) {g : Graph} (v : Inv g) where
  finish-Inv : After (finish c g)
  finish-Inv = save-Inv c v

  within_budget-Inv :
      (b : Bool) (k : Graph → Graph × Result (Unit {0}))
      → After (k g)
      → After (within_budget c b g k)
  unfolding within_budget
  within_budget-Inv b k h =
      if_elim After (over_budget c.now b g) (λ e. save-Inv c (exhaust_aggregate-Inv c.now v))
        (λ e. h)

module _ (c : Call) {g : Graph} (v : Inv g) where
  charge_attempt-Inv :
      (u : WorkUsage) (o : Option Attempt)
      → find runs g.attempts ≡ o
      → After (charge_attempt c u g o)
  unfolding charged
  charge_attempt-Inv u none at =
      let w = charge-Inv v u in within_budget-Inv c w false (finish c) (finish-Inv c w)
  charge_attempt-Inv u (some a) at =
      let on : runs a ≡ true = (find-Mem runs g.attempts at).1 in
      let w = keep-Inv (charge-Inv v u) runs (charged u a) at on on refl refl in
      if_elim After (in_primary_lane (node_by g a.node_id))
        (λ e. within_budget-Inv c w false (finish c) (finish-Inv c w)) (λ e. v)

  pub record_primary_usage-Inv : (u : WorkUsage) → After (record_primary_usage c u g)
  unfolding record_primary_usage
  record_primary_usage-Inv u = guard-Inv (not (valid_work_usage u)) _ _ v (λ e.
      guard-Inv (is_no_usage u || over g) _ _ v
        (λ f. charge_attempt-Inv u (find runs g.attempts) refl))

  pub exhaust_budget-Inv : After (exhaust_budget c g)
  unfolding exhaust_budget
  exhaust_budget-Inv = guard-Inv (over g) _ _ v (λ e. finish-Inv c (exhaust_aggregate-Inv c.now v))

  pub enforce_aggregate_budget-Inv : After (enforce_aggregate_budget c g)
  unfolding enforce_aggregate_budget
  enforce_aggregate_budget-Inv =
      guard-Inv (over g) _ _ v (λ e. within_budget-Inv c v true carry_on v)

  pub activate-Inv : After (activate c g)
  unfolding activate
  activate-Inv =
      let w = start_active-Inv v c.now in
      guard-Inv (over g) _ _ v (λ e.
        guard-Inv g.pause_requested _ _ v
          (λ f. within_budget-Inv c w true (finish c) (finish-Inv c w)))

  pub request_pause-Inv : After (request_pause c g)
  unfolding request_pause
  request_pause-Inv =
      let reached = not (any runs g.attempts) in
      guard-Inv (over g) _ _ v (λ live. guard-Inv g.pause_requested _ _ v (λ e.
        let w = pause-Inv v reached live in
        finish-Inv c (if_elim Inv reached (λ f. stop_active-Inv w c.now) (λ f. w))))

  pub reach_pause-Inv : After (reach_pause c g)
  unfolding reach_pause
  reach_pause-Inv = guard-Inv (not g.pause_requested) _ _ v (λ asked.
      guard-Inv (over g) _ _ v (λ live. guard-Inv g.pause_reached _ _ v (λ e.
        guard-Inv (any (λ a. runs a && is_some a.pending_action) g.attempts) _ _ v (λ f.
          let w : Inv (record g { pause_reached = true }) = record {
            lane = v.lane;
            distinct = v.distinct;
            bounded = v.bounded;
            quiet = λ o. cc;
            paused = λ t. ground arith;
          } in
          finish-Inv c (stop_active-Inv w c.now)))))

  pub resume-Inv : After (resume c g)
  unfolding resume
  resume-Inv =
      let w = start_active-Inv (clear_pause-Inv v) c.now in
      guard-Inv (over g) _ _ v (λ e.
        guard-Inv (not g.pause_requested) _ _ v
          (λ f. within_budget-Inv c w true (finish c) (finish-Inv c w)))

  -- A node that the graph holds under its id and that does not run is tried again.
  reopen_node-Inv :
      (n : Node)
      → find (with_id n.id) g.nodes ≡ some n
      → is_running n.state ≡ false
      → After (reopen_node c n g)
  unfolding reopen_node
  reopen_node-Inv n here off =
      let m : Node = release_node NodeState.retryable n in
      finish-Inv c (
        reduce_outcome-Inv c.now (
          refresh_ready-Inv (
            nodes-Inv v _
              (Same-write (with_id n.id) m g.nodes here (Kept-idle m n refl refl refl off)))))

module _ (c : Call) {g : Graph} (v : Inv g) where
  start_active-nodes : (now : ℕ) (h : Graph) → (start_active now h).nodes ≡ h.nodes
  unfolding start_active
  start_active-nodes now h = ground arith

  retry-Inv :
      (n : Node)
      → find (with_id n.id) g.nodes ≡ some n
      → is_running n.state ≡ false
      → After (retry c n g)
  unfolding retry
  retry-Inv n here off =
      let h : Graph = record g { outcome = none } in
      let w = start_active-Inv (reopened-Inv v) c.now in
      within_budget-Inv c w true (reopen_node c n) (
        reopen_node-Inv c w n
          (subst (λ ns. find (with_id n.id) ns ≡ some n) (sym (start_active-nodes c.now h)) here)
          off)

  retry_attempt-Inv :
      (n : Node) (o : Option Attempt) → After (retry c n g) → After (retry_attempt c n g o)
  retry_attempt-Inv n none w = v
  retry_attempt-Inv n (some a) w =
      guard-Inv (not (ended_blocked a.state)) _ _ v (λ e. guard-Inv (ambiguous a) _ _ v (λ f. w))

  blocked_stops : (n : Node) → not (is_blocked n.state) ≡ false → is_running n.state ≡ false
  blocked_stops n h = ground arith

  retry_on-Inv : (i : ℤ) (o : Option Node) → node_by g i ≡ o → After (retry_on c g o)
  retry_on-Inv i none here = v
  retry_on-Inv i (some n) here =
      let same : n.id ≡ i = int_eq→eq n.id i (find-Mem (with_id i) g.nodes here).1 in
      let spot : find (with_id n.id) g.nodes ≡ some n =
        subst (λ (j : ℤ). find (with_id j) g.nodes ≡ some n) (sym same) here in
      guard-Inv (is_in_review n.state) _ _ v (λ e. guard-Inv (not (is_blocked n.state)) _ _ v (λ f.
        guard-Inv (leb g.max_attempts_per_node (length n.attempt_ids)) _ _ v (λ h.
          guard-Inv (is_empty n.attempt_ids) _ _ v
            (λ k. retry_attempt-Inv n (last_attempt g n) (retry-Inv n spot (blocked_stops n f))))))

  pub retry_node-Inv : (i : ℤ) → After (retry_node c i g)
  unfolding retry_node
  retry_node-Inv i = guard-Inv (is_outcome_review g.outcome) _ _ v (λ e.
      guard-Inv (not (is_outcome_blocked g.outcome)) _ _ v (λ f. retry_on-Inv i (node_by g i) refl))

  pub cancel-Inv : After (cancel c g)
  unfolding cancel
  cancel-Inv =
      let s = cancel_nodes-Swept g.max_attempts_per_node g.nodes v.bounded g.attempts v.lane in
      let h : Graph = record g {
        attempts = map (cancel_attempt c.now) g.attempts;
        nodes = cancel_nodes g.attempts g.nodes;
      } in
      let w : over g ≡ false → Inv h = λ live. record {
        lane =
            inl
              (record { no_attempt = cancel_attempts-idle c.now g.attempts; no_node = s.no_node });
        distinct = subst (Distinct (λ (i : ℤ). i)) (sym s.ids) v.distinct;
        bounded = s.within;
        quiet = λ o. cc;
        paused = v.paused;
      } in
      guard-Inv (over g) _ _ v
        (λ live. finish-Inv c (conclude-Inv Outcome.cancelled c.now (w live) s.no_node))

  recovered-Inv : (token : Codes) → over g ≡ false → Inv (recovered c token g)
  unfolding recovered
  recovered-Inv token live =
      let bound = g.max_attempts_per_node in
      let s = recover_attempts-Swept bound g.updated c.now g.nodes v.bounded g.attempts v.lane in
      let swept = recover_attempts bound g.updated c.now g.attempts g.nodes in
      let w : Inv (record g { attempts = swept.0; nodes = swept.1 }) = record {
        lane = inl (record {
          no_attempt = recover_attempts-idle bound g.updated c.now g.attempts g.nodes;
          no_node = s.no_node;
        });
        distinct = subst (Distinct (λ (i : ℤ). i)) (sym s.ids) v.distinct;
        bounded = s.within;
        quiet = λ o. cc;
        paused = v.paused;
      } in
      reduce_outcome-Inv c.now (
        refresh_ready-Inv (if_elim Inv (drifted g token) (λ e. invalidate_all_done-Inv w) (λ e. w)))

  pub recover-Inv : (token : Codes) → After (recover c token g)
  unfolding recover
  recover-Inv token =
      guard-Inv (over g || not (any runs g.attempts || drifted g token)) _ _ v
        (λ e. finish-Inv c (recovered-Inv token (ground arith)))

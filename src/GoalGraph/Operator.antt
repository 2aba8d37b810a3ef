-- ===== src/GoalGraph/Operator.antt =====
-- internal/goalgraph/graph.go: what the operator and the runtime's boundaries do to a graph: usage
-- and budget, pause and resume, retry, and cancellation.
use collomia.Common.{
  ℕ, Bool, true, false, not, ◌&&◌, ◌||◌, List, [], ◌∷◌, map, any, length, is_empty, leb, ltb, ◌==◌,
  Option, none, some, if◌then◌else◌,
}
use collomia.Common.Int.{ℤ, int_eq}
use collomia.Common.Text.{Codes, text_eq}
use collomia.GoalGraph.Data.{
  NodeState, Node, AttemptState, Attempt, WorkUsage, Outcome, Graph, GraphError, Result, ok, err,
  is_blocked, is_in_review, is_primary, is_some, runs, over,
}
use collomia.GoalGraph.Slots.{find, write}
use collomia.GoalGraph.Budget.{
  is_no_usage, valid_work_usage, add_work_usage, over_budget, exhaust_aggregate,
}
use collomia.GoalGraph.Budget.Clock.{stop_active, start_active, clear_pause}
use collomia.GoalGraph.Ready.{conclude, refresh_ready, reduce_outcome}
use collomia.GoalGraph.Record.{is_interrupted}
use collomia.GoalGraph.Start.{Call, save, saved}
use collomia.GoalGraph.Results.{pending_is}
use collomia.GoalGraph.Propose.{with_id, node_by, release_node}

-- The end of an operation that first enforces the budget: `k` goes on with the graph.
unfoldable pub within_budget :
    Call → Bool → Graph → (Graph → Graph × Result (Unit {0})) → Graph × Result (Unit {0})
unfolding over_budget exhaust_aggregate
within_budget c at_boundary g k =
    if over_budget c.now at_boundary g
    then (save c (exhaust_aggregate c.now g), saved c (err GraphError.aggregate_budget))
    else k g

abbrev pub finish : Call → Graph → Graph × Result (Unit {0})
finish c g = (save c g, saved c (ok tt))

abbrev pub carry_on : Graph → Graph × Result (Unit {0})
carry_on g = (g, ok tt)

-- The usage that an attempt adds to its own.
unfoldable pub charged : WorkUsage → Attempt → Attempt
unfolding add_work_usage
charged u a = record a {
  usage = add_work_usage a.usage u;
  last_progress_iteration =
      if a.last_progress_iteration == 0 && ltb 0 a.tool_successes && ltb 0 a.usage.iterations
      then a.usage.iterations
      else a.last_progress_iteration;
}

abbrev pub charge : WorkUsage → Graph → Graph
charge u g = record g {
  accounting = record g.accounting { primary = add_work_usage g.accounting.primary u };
}

-- Whether the node of the running attempt is a primary one.
abbrev pub in_primary_lane : Option Node → Bool
in_primary_lane none = false
in_primary_lane (some n) = is_primary n.execution

abbrev pub charge_attempt : Call → WorkUsage → Graph → Option Attempt → Graph × Result (Unit {0})
charge_attempt c u g none = within_budget c false (charge u g) (finish c)
charge_attempt c u g (some a) =
    if in_primary_lane (node_by g a.node_id)
    then within_budget c false
        (record (charge u g) { attempts = write runs (charged u a) g.attempts }) (finish c)
    else (g, err GraphError.wrong_lane)

unfoldable pub record_primary_usage : Call → WorkUsage → Graph → Graph × Result (Unit {0})
unfolding valid_work_usage charged within_budget find write int_eq add_work_usage
record_primary_usage c u g =
    if not (valid_work_usage u)
    then (g, err GraphError.invalid_usage)
    else if is_no_usage u || over g
    then (g, ok tt)
    else charge_attempt c u g (find runs g.attempts)

unfoldable pub exhaust_budget : Call → Graph → Graph × Result (Unit {0})
unfolding exhaust_aggregate
exhaust_budget c g = if over g then (g, ok tt) else finish c (exhaust_aggregate c.now g)

abbrev is_budget : Option Outcome → Bool
is_budget (some Outcome.budget_exhausted) = true
is_budget _ = false

unfoldable pub enforce_aggregate_budget : Call → Graph → Graph × Result (Unit {0})
unfolding within_budget
enforce_aggregate_budget c g =
    if over g
    then (g, err (if is_budget g.outcome then GraphError.aggregate_budget else GraphError.terminal))
    else within_budget c true g carry_on

unfoldable pub activate : Call → Graph → Graph × Result (Unit {0})
unfolding start_active within_budget
activate c g =
    if over g
    then (g, err GraphError.terminal)
    else if g.pause_requested
    then (g, err GraphError.paused)
    else within_budget c true (start_active c.now g) (finish c)

unfoldable pub request_pause : Call → Graph → Graph × Result (Unit {0})
unfolding stop_active
request_pause c g =
    let reached = not (any runs g.attempts) in
    let h = record g { pause_requested = true; pause_reached = reached } in
    if over g
    then (g, err GraphError.terminal)
    else if g.pause_requested
    then (g, ok tt)
    else finish c (if reached then stop_active c.now h else h)

unfoldable pub reach_pause : Call → Graph → Graph × Result (Unit {0})
unfolding stop_active
reach_pause c g =
    if not g.pause_requested
    then (g, err GraphError.not_paused)
    else if over g
    then (g, err GraphError.terminal)
    else if g.pause_reached
    then (g, ok tt)
    else if any (λ a. runs a && is_some a.pending_action) g.attempts
    then (g, err GraphError.action_pending)
    else finish c (stop_active c.now (record g { pause_reached = true }))

unfoldable pub resume : Call → Graph → Graph × Result (Unit {0})
unfolding clear_pause start_active within_budget
resume c g =
    if over g
    then (g, err GraphError.terminal)
    else if not g.pause_requested
    then (g, err GraphError.not_paused)
    else within_budget c true (start_active c.now (clear_pause g)) (finish c)

abbrev pub is_outcome_blocked : Option Outcome → Bool
is_outcome_blocked (some Outcome.blocked) = true
is_outcome_blocked _ = false

abbrev pub is_outcome_review : Option Outcome → Bool
is_outcome_review (some Outcome.awaiting_review) = true
is_outcome_review _ = false

abbrev pub ended_blocked : AttemptState → Bool
ended_blocked AttemptState.blocked = true
ended_blocked AttemptState.interrupted = true
ended_blocked _ = false

-- Whether an attempt may have had an effect that nobody observed.
abbrev pub ambiguous : Attempt → Bool
ambiguous a =
    pending_is (λ act. act.non_replayable) a.pending_action
    || any (λ f. not f.resolved && is_interrupted f.kind) a.failures

abbrev pub last_id : List Codes → Codes
last_id [] = []
last_id (i ∷ []) = i
last_id (i ∷ j ∷ ids) = last_id (j ∷ ids)

-- The last attempt on a node.
unfoldable pub last_attempt : Graph → Node → Option Attempt
unfolding find text_eq
last_attempt g n = find (λ a. text_eq a.id (last_id n.attempt_ids)) g.attempts

-- The blocked node once it may be tried again, and the graph with it.
unfoldable pub reopen_node : Call → Node → Graph → Graph × Result (Unit {0})
unfolding write int_eq refresh_ready reduce_outcome
reopen_node c n g =
    let nodes = write (with_id n.id) (release_node NodeState.retryable n) g.nodes in
    finish c (reduce_outcome c.now (refresh_ready (record g { nodes = nodes })))

-- RetryNode once the node and its last attempt have passed the guards.
unfoldable pub retry : Call → Node → Graph → Graph × Result (Unit {0})
unfolding start_active within_budget reopen_node
retry c n g =
    within_budget c true (start_active c.now (record g { outcome = none })) (reopen_node c n)

abbrev pub retry_attempt : Call → Node → Graph → Option Attempt → Graph × Result (Unit {0})
retry_attempt c n g none = (g, err GraphError.nothing_to_retry)
retry_attempt c n g (some a) =
    if not (ended_blocked a.state)
    then (g, err GraphError.nothing_to_retry)
    else if ambiguous a
    then (g, err GraphError.unsafe_retry)
    else retry c n g

abbrev pub retry_on : Call → Graph → Option Node → Graph × Result (Unit {0})
retry_on c g none = (g, err GraphError.unknown_node)
retry_on c g (some n) =
    if is_in_review n.state
    then (g, err GraphError.awaiting_review)
    else if not (is_blocked n.state)
    then (g, err GraphError.not_blocked)
    else if leb g.max_attempts_per_node (length n.attempt_ids)
    then (g, err GraphError.attempts_exhausted)
    else if is_empty n.attempt_ids
    then (g, err GraphError.nothing_to_retry)
    else retry_attempt c n g (last_attempt g n)

unfoldable pub retry_node : Call → ℤ → Graph → Graph × Result (Unit {0})
unfolding retry last_attempt find int_eq
retry_node c i g =
    if is_outcome_review g.outcome
    then (g, err GraphError.awaiting_review)
    else if not (is_outcome_blocked g.outcome)
    then (g, err GraphError.not_blocked)
    else retry_on c g (node_by g i)

-- A node that is found is given another state and has no running attempt.
abbrev pub release_found : NodeState → Option Node → List Node → List Node
release_found st none nodes = nodes
release_found st (some n) nodes = write (with_id n.id) (release_node st n) nodes

-- The nodes once the running attempts are cancelled.
unfoldable pub cancel_nodes : List Attempt → List Node → List Node
unfolding find write int_eq
cancel_nodes [] nodes = nodes
cancel_nodes (a ∷ rest) nodes =
    let found = find (with_id a.node_id) nodes in
    cancel_nodes rest (if runs a then release_found NodeState.cancelled found nodes else nodes)

abbrev pub cancel_attempt : ℕ → Attempt → Attempt
cancel_attempt now a =
    if runs a then record a { state = AttemptState.cancelled; finished = now } else a

unfoldable pub cancel : Call → Graph → Graph × Result (Unit {0})
unfolding cancel_nodes conclude
cancel c g =
    let h = record g {
      attempts = map (cancel_attempt c.now) g.attempts;
      nodes = cancel_nodes g.attempts g.nodes;
    } in
    if over g then (g, ok tt) else finish c (conclude Outcome.cancelled c.now h)

-- ===== src/GoalGraph/Start.antt =====
-- internal/goalgraph/graph.go, StartNext: an attempt on the next ready node. An operation holds the
-- graph's lock throughout, so it is one step of the state; it returns the new state and the result.
-- Text for the operator, which no test reads, is left out: the reasons of nodes and of outcomes,
-- the details of failures, and the queue of updates.
use collomia.Common.{
  ℕ, ◌+◌, Bool, true, false, not, ◌&&◌, [], ◌∷◌, ◌++◌, any, length, is_empty, ltb, Option, none,
  some, if◌then◌else◌,
}
use collomia.Common.Text.{Codes, text_eq}
use collomia.GoalGraph.Data.{
  NodeState, Node, AttemptState, Attempt, Graph, GraphError, Result, ok, err, is_ready, is_primary,
  is_read_only, runs, over,
}
use collomia.GoalGraph.Slots.{find, write}
use collomia.GoalGraph.Budget.{no_usage, over_budget, exhaust_aggregate}
use collomia.GoalGraph.Ready.{refresh_ready, reduce_outcome, invalidate_all_done}

-- What an operation takes from outside: the time, the next new id, and whether the store saves the
-- snapshot.
pub record Call : Type 0 where
  pub now : ℕ
  pub new_id : Codes
  pub persisted : Bool

-- persistLocked: the state, and the result that a failure to save replaces.
abbrev pub save : Call → Graph → Graph
save c g = record g { updated = c.now }

abbrev pub saved {ℓ} : {A : Type ℓ} → Call → Result A → Result A
saved c r = if c.persisted then r else err GraphError.persistence

abbrev pub ready_primary : Node → Bool
ready_primary n = is_ready n.state && is_primary n.execution

abbrev pub ready_read : Node → Bool
ready_read n = is_ready n.state && is_read_only n.execution

-- Whether the workspace is known on both sides and has changed.
abbrev pub drifted : Graph → Codes → Bool
drifted g token =
    not (is_empty g.workspace_token)
    && not (is_empty token)
    && not (text_eq g.workspace_token token)

-- What StartNext does before it selects a node.
unfoldable pub sync_workspace : Codes → Graph → Graph
unfolding invalidate_all_done refresh_ready
sync_workspace token g =
    let g = if drifted g token then invalidate_all_done g else g in
    refresh_ready (
      if is_empty g.workspace_token && not (is_empty token)
      then record g { workspace_token = token }
      else g)

-- The attempt that StartNext opens on a node.
abbrev pub opened : Call → Codes → Graph → Node → Attempt
opened c token g n = record {
  id = c.new_id;
  node_id = n.id;
  number = length n.attempt_ids + 1;
  state = AttemptState.running;
  graph_generation = g.generation;
  base_workspace_token = token;
  mutation_generation = g.mutation_generation;
  may_have_mutated = false;
  has_workspace_write = false;
  may_have_external_effects = false;
  completion_interventions = 0;
  completion_gap_kinds = [];
  completion_gap_iteration = 0;
  tool_successes = 0;
  evidence_pruned = 0;
  pending_action = none;
  failures = [];
  evidence_ids = [];
  usage = no_usage;
  last_progress_iteration = 0;
  started = c.now;
  finished = 0;
}

abbrev pub claimed : Call → Node → Node
claimed c n = record n {
  state = NodeState.running;
  active_attempt_id = c.new_id;
  attempt_ids = n.attempt_ids ++ c.new_id ∷ [];
}

abbrev pub block_claim : Node → Node
block_claim n = record n { state = NodeState.blocked; active_attempt_id = [] }

-- blockNodeLocked on the node that StartNext selected.
unfoldable pub block_ready : ℕ → Node → Graph → Graph
unfolding write reduce_outcome
block_ready now n g =
    reduce_outcome now (record g { nodes = write ready_primary (block_claim n) g.nodes })

unfoldable pub open_attempt : Call → Codes → Node → Graph → Graph
unfolding write
open_attempt c token n g = record g {
  attempts = g.attempts ++ opened c token g n ∷ [];
  nodes = write ready_primary (claimed c n) g.nodes;
}

-- The end of StartNext, on the first ready primary node.
unfoldable pub launch : Call → Codes → Option Node → Graph → Graph × Result (Node × Attempt)
unfolding block_ready open_attempt reduce_outcome
launch c token none g =
    let h = reduce_outcome c.now g in
    if over h
    then (save c h, saved c (err GraphError.terminal))
    else (h, err GraphError.no_ready_node)
launch c token (some n) g =
    if ltb g.max_attempts_per_node (length n.attempt_ids + 1)
    then (save c (block_ready c.now n g), saved c (err GraphError.terminal))
    else (save c (open_attempt c token n g), saved c (ok (claimed c n, opened c token g n)))

-- StartNext once the guards have passed.
unfoldable pub select : Call → Codes → Graph → Graph × Result (Node × Attempt)
unfolding launch find
select c token g =
    if not (any ready_primary g.nodes) && any ready_read g.nodes
    then (g, err GraphError.read_fanout_ready)
    else launch c token (find ready_primary g.nodes) g

unfoldable pub start_next : Call → Codes → Graph → Graph × Result (Node × Attempt)
unfolding select sync_workspace over_budget exhaust_aggregate
start_next c token g =
    if over g
    then (g, err GraphError.terminal)
    else if g.pause_requested
    then (g, err GraphError.paused)
    else if any runs g.attempts
    then (g, err GraphError.already_running)
    else if over_budget c.now true g
    then (save c (exhaust_aggregate c.now g), saved c (err GraphError.aggregate_budget))
    else select c token (sync_workspace token g)

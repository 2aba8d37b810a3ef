-- ===== src/GoalGraph/Ready.antt =====
-- internal/goalgraph/graph.go: which nodes may start, when the graph is over, and what a change of
-- the workspace makes stale. Node ids are distinct, as ValidateSpec demands, so that a map from ids
-- to states is a lookup.
pub mod Stale
pub mod Fuel
use collomia.Common.{
  ℕ, Bool, true, false, not, ◌&&◌, ◌||◌, List, [], map, all, any, length, leb, Option, none, some,
  if◌then◌else◌,
}
use collomia.Common.Int.{ℤ, int_eq}
use collomia.GoalGraph.Data.{
  NodeState, Node, Outcome, Graph, is_done, is_blocked, is_exhausted, is_in_review, is_integrated,
  is_waiting, active, over,
}
use collomia.GoalGraph.Budget.Clock.{stop_active, clear_pause}

-- `states[dependency] == NodeDone`
unfoldable pub done_in : List Node → ℤ → Bool
unfolding int_eq
done_in nodes d = any (λ n. int_eq n.id d && is_done n.state) nodes

-- What refreshReadyLocked does to a node, given the nodes before the pass.
unfoldable pub refresh_node : ℕ → List Node → Node → Node
unfolding done_in
refresh_node bound nodes n =
    if not (is_waiting n.state) || not (all (done_in nodes) n.depends_on)
    then n
    else if leb bound (length n.attempt_ids)
    then record n { state = NodeState.budget_exhausted }
    else record n { state = NodeState.ready }

unfoldable pub refresh_ready : Graph → Graph
unfolding refresh_node
refresh_ready g = record g { nodes = map (refresh_node g.max_attempts_per_node g.nodes) g.nodes }

-- The end of a graph: its outcome is set, its clock stops and its pause is cleared.
unfoldable pub conclude : Outcome → ℕ → Graph → Graph
unfolding stop_active clear_pause
conclude o now g = clear_pause (stop_active now (record g { outcome = some o }))

-- The outcome that reduceOutcomeLocked finds, if any.
unfoldable pub reduced : List Node → Option Outcome
reduced nodes =
    let running = any active nodes in
    if all (λ n. is_done n.state) nodes
    then some Outcome.done
    else if any (λ n. is_blocked n.state) nodes && not running
    then some Outcome.blocked
    else if any (λ n. is_exhausted n.state) nodes && not running
    then some Outcome.budget_exhausted
    else if any (λ n. is_integrated n.state) nodes && not running
    then some Outcome.awaiting_verification
    else if any (λ n. is_in_review n.state) nodes && not running
    then some Outcome.awaiting_review
    else none

abbrev pub conclude_by : Option Outcome → ℕ → Graph → Graph
conclude_by none now g = g
conclude_by (some o) now g = conclude o now g

unfoldable pub reduce_outcome : ℕ → Graph → Graph
unfolding reduced conclude
reduce_outcome now g = if over g then g else conclude_by (reduced g.nodes) now g

abbrev pub invalidate_node : Node → Node
invalidate_node n =
    if is_done n.state then record n { state = NodeState.stale; accepted_attempt_id = [] } else n

unfoldable pub invalidate_all_done : Graph → Graph
invalidate_all_done g = record g { nodes = map invalidate_node g.nodes; outcome = none }

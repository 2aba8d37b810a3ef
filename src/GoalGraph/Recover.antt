-- ===== src/GoalGraph/Recover.antt =====
-- internal/goalgraph/graph.go, Recover: a stored graph becomes one in which nothing runs.
use collomia.Common.{
  ℕ, Bool, false, not, ◌&&◌, ◌||◌, List, [], ◌∷◌, any, length, ltb, Option, none, some,
  if◌then◌else◌,
}
use collomia.Common.Int.{int_eq}
use collomia.Common.Text.{Codes, codes}
use collomia.GoalGraph.Data.{
  NodeState, Node, AttemptState, Attempt, FailureKind, Failure, PendingAction, Graph, Result, ok,
  is_isolated, is_read_only, runs, over,
}
use collomia.GoalGraph.Slots.{find, write}
use collomia.GoalGraph.Ready.{refresh_ready, reduce_outcome, invalidate_all_done}
use collomia.GoalGraph.Start.{Call, drifted}
use collomia.GoalGraph.Tools.{failure_of, append_failure}
use collomia.GoalGraph.Propose.{with_id}
use collomia.GoalGraph.Operator.{finish, release_found}

abbrev pub on_lane : (Node → Bool) → Option Node → Bool
on_lane p none = false
on_lane p (some n) = p n

-- The running attempt with its end: that of the last save, when a read was seen only until then.
abbrev pub interrupt : ℕ → ℕ → Option Node → Attempt → Attempt
interrupt updated now n a = record a {
  state = AttemptState.interrupted;
  finished =
      if on_lane (λ m. is_read_only m.execution) n && not (ltb updated a.started) && ltb updated now
      then updated
      else now;
}

-- The failure of an attempt whose pending action cannot be repeated.
abbrev pub pending_failure : ℕ → Option PendingAction → Option Failure
pending_failure now none = none
pending_failure now (some act) =
    if act.non_replayable
    then some (failure_of FailureKind.interrupted_action act.tool act.risk false now)
    else none

-- The failure that records an action whose effect is unknown, if there may be one.
unfoldable pub interrupted_failure : ℕ → Option Node → Attempt → Option Failure
interrupted_failure now n a =
    if on_lane (λ m. is_isolated m.execution) n
    then some (
        failure_of FailureKind.interrupted_action (codes "automatic_write_delegate") (codes "write")
          false now)
    else pending_failure now a.pending_action

abbrev pub add_failure : Option Failure → Attempt → Attempt
add_failure none a = a
add_failure (some f) a = append_failure f a

-- The state of the node of an interrupted attempt.
abbrev pub interrupted_state : ℕ → Option Failure → Node → NodeState
interrupted_state bound (some f) n = NodeState.blocked
interrupted_state bound none n =
    if ltb (length n.attempt_ids) bound then NodeState.retryable else NodeState.budget_exhausted

abbrev pub recover_node : ℕ → Option Failure → Option Node → List Node → List Node
recover_node bound f none nodes = nodes
recover_node bound f (some n) nodes = release_found (interrupted_state bound f n) (some n) nodes

abbrev pub recover_attempt : ℕ → ℕ → Option Node → Attempt → Attempt
recover_attempt updated now n a =
    add_failure (interrupted_failure now n a) (interrupt updated now n a)

-- The loop over the attempts.
unfoldable pub recover_attempts : ℕ → ℕ → ℕ → List Attempt → List Node → List Attempt × List Node
unfolding find write int_eq interrupted_failure
recover_attempts bound updated now [] nodes = ([], nodes)
recover_attempts bound updated now (a ∷ rest) nodes =
    let n = find (with_id a.node_id) nodes in
    let later =
      recover_attempts bound updated now rest
        (if runs a then recover_node bound (interrupted_failure now n a) n nodes else nodes) in
    ((if runs a then recover_attempt updated now n a else a) ∷ later.0, later.1)

unfoldable pub recovered : Call → Codes → Graph → Graph
unfolding recover_attempts invalidate_all_done refresh_ready reduce_outcome
recovered c token g =
    let swept = recover_attempts g.max_attempts_per_node g.updated c.now g.attempts g.nodes in
    let h = record g { attempts = swept.0; nodes = swept.1 } in
    reduce_outcome c.now (refresh_ready (if drifted g token then invalidate_all_done h else h))

unfoldable pub recover : Call → Codes → Graph → Graph × Result (Unit {0})
unfolding recovered
recover c token g =
    if over g || not (any runs g.attempts || drifted g token)
    then (g, ok tt)
    else finish c (recovered c token g)

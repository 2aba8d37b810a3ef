-- ===== src/GoalGraph/Tests.antt =====
-- internal/goalgraph/graph.go at concrete inputs: a plan of two nodes, worked through.
use collomia.Common.{
  ℕ, Bool, true, false, List, [], ◌∷◌, Option, none, some, ◌≡◌, ◌↔◌, refl, arith, map,
}
use collomia.Common.Int.{ℤ, pos, int_eq}
use collomia.Common.Text.{Codes, codes}
use collomia.GoalGraph.Data.{runs, Execution, NodeState, Node, Attempt, WorkUsage, Graph, over}
use collomia.GoalGraph.Slots.{find}
use collomia.GoalGraph.Budget.{no_usage}
use collomia.GoalGraph.Budget.Admission.{Admitted, start_next-Admitted}
use collomia.GoalGraph.Gate.{accepts, IsProven, propose_completion-accepts_iff}
use collomia.GoalGraph.Replay.{IsRefused, retry_node-recover-IsRefused}
use collomia.GoalGraph.Record.Prune.{IsPrunedPair, prune_attempt_evidence-IsPruned}
use collomia.GoalGraph.Ready.Stale.{
  add_ancestors, ancestors, dependents_loop, invalidate_dependents,
}
use collomia.GoalGraph.Ready.Fuel.{invalidation_enough}
use collomia.GoalGraph.Spec.Valid.{IsRunnable, validate_spec-IsRunnable}
use collomia.GoalGraph.Propose.{node_by, propose_completion}
use collomia.GoalGraph.Operator.{last_attempt, retry_node}
use collomia.GoalGraph.Recover.{recover}
use collomia.GoalGraph.Reach.Terminal.{step_terminal}
use collomia.GoalGraph.Spec.{NodeSpec, Spec, first_fault, refuse, narrow_fault, validate_spec}
use collomia.GoalGraph.New.{Options, new_graph, drafted}
use collomia.GoalGraph.Record.{bounded, prune_attempt_evidence}
use collomia.GoalGraph.Start.{Call, opened, start_next}
use collomia.GoalGraph.Tools.{ToolAction}
use collomia.GoalGraph.Results.{ToolResult}
use collomia.GoalGraph.Reach.{Op, starts, begins, finishes, proposes, cancels, step, run, step-Inv}
use collomia.GoalGraph.Lane.Invariant.{Inv}
use collomia.GoalGraph.Reach.Invariant.{run-Inv_from_new}

abbrev same_case : ℕ → ℕ
same_case n = n

abbrev node_spec : ℤ → List ℤ → NodeSpec
node_spec i ds = record {
  id = i;
  title = codes "t";
  depends_on = ds;
  acceptance = [];
  execution = "";
  write_paths = [];
}

-- The second node of the plan depends on the first.
abbrev two_nodes : Spec
two_nodes = record {
  goal = codes "g";
  nodes = node_spec (pos 1) [] ∷ node_spec (pos 2) (pos 1 ∷ []) ∷ [];
}

abbrev defaults : Options
defaults = record {
  max_attempts_per_node = 0;
  aggregate_iterations = 0;
  aggregate_tokens = 0;
  aggregate_cost = 0;
  active_wall_seconds = 0;
  accounting_started = 0;
  initial_primary = no_usage;
}

abbrev call : ℕ → Codes → Call
call now i = record { now = now; new_id = i; persisted = true }

abbrev made : Option Graph → Graph
made (some g) = g
made none = drafted same_case same_case 0 defaults two_nodes

abbrev no_node : Node
no_node = record {
  id = pos 0;
  position = 0;
  title = [];
  depends_on = [];
  acceptance = [];
  execution = Execution.primary;
  write_paths = [];
  state = NodeState.proposed;
  active_attempt_id = [];
  accepted_attempt_id = [];
  attempt_ids = [];
}

abbrev or_node : Option Node → Node
or_node (some n) = n
or_node none = no_node

abbrev or_attempt : Option Attempt → Attempt
or_attempt (some a) = a
or_attempt none = opened (call 0 []) [] (drafted same_case same_case 0 defaults two_nodes) no_node

abbrev fresh : Graph
fresh = made (new_graph same_case same_case 5 defaults two_nodes)

validate_two_nodes : validate_spec same_case same_case two_nodes ≡ none
unfolding validate_spec first_fault refuse narrow_fault
validate_two_nodes = refl

fresh_test : new_graph same_case same_case 5 defaults two_nodes ≡ some fresh
unfolding new_graph first_fault refuse narrow_fault
fresh_test = refl

abbrev edit : ToolAction
edit = record {
  tool = codes "edit";
  risk = codes "write";
  summary = codes "s";
  command = [];
  potential_mutation = true;
  non_replayable = true;
}

abbrev result : Bool → Codes → ToolResult
result check token = record {
  tool = codes "edit";
  risk = codes "write";
  summary = codes "s";
  command = [];
  failed = false;
  failure_kind = none;
  failure_detail = [];
  retryable = false;
  verification = check;
  workspace_token = token;
  started = 6;
  finished = 7;
}

abbrev a1 : Codes
a1 = codes "a1"

-- The first node is started, edits the workspace and is proposed too early; then it is verified.
abbrev working : List (Call × Op)
working = (call 6 a1, starts (codes "w0")) ∷ (call 7 (codes "x1"), begins a1 edit (codes "w0")) ∷ []

abbrev verified : List (Call × Op)
verified =
    (call 8 (codes "e1"), finishes a1 (result false (codes "w1")))
    ∷ (call 9 (codes "e2"), finishes a1 (result true (codes "w1")))
    ∷ []

abbrev pending : Graph
pending = run working fresh

abbrev ready_to_judge : Graph
ready_to_judge = run verified pending

abbrev accepted_one : Graph
accepted_one = step (call 10 (codes "e3")) (proposes (codes "ok") (codes "w1")) ready_to_judge

-- The node is done and the next one is ready.
states_test :
    (map (λ n. n.state) accepted_one.nodes ≡ NodeState.done ∷ NodeState.ready ∷ [])
    × (map (λ n. n.state) pending.nodes ≡ NodeState.running ∷ NodeState.proposed ∷ [])
    × (map (λ e. e.mutation_generation) ready_to_judge.evidence ≡ 1 ∷ 1 ∷ [])
    × (over accepted_one ≡ false)
unfolding run new_graph first_fault refuse narrow_fault bounded
states_test = (refl, refl, refl, refl)

run-Inv_from_new_example : Inv (run working fresh)
unfolding run new_graph first_fault refuse narrow_fault
run-Inv_from_new_example = run-Inv_from_new same_case same_case 5 defaults two_nodes working refl

abbrev cancelled : Graph
cancelled = step (call 11 []) cancels pending

pending-Inv : Inv pending
unfolding run new_graph first_fault refuse narrow_fault
pending-Inv = run-Inv_from_new same_case same_case 5 defaults two_nodes working refl

cancelled-Inv : Inv cancelled
cancelled-Inv = step-Inv (call 11 []) cancels pending-Inv

step_terminal_example : step (call 12 []) (starts (codes "w1")) cancelled ≡ cancelled
unfolding step run new_graph first_fault refuse narrow_fault
step_terminal_example = step_terminal (call 12 []) cancelled-Inv refl (starts (codes "w1")) refl

abbrev judged : Attempt
judged = or_attempt (find runs ready_to_judge.attempts)

propose_completion-accepts_iff_example :
    (accepts (propose_completion (call 10 (codes "e3")) (codes "ok") (codes "w1") ready_to_judge).1
      ≡ true)
    ↔ IsProven ready_to_judge judged (codes "w1")
unfolding run new_graph first_fault refuse narrow_fault bounded
propose_completion-accepts_iff_example =
    propose_completion-accepts_iff (call 10 (codes "e3")) (codes "ok") (codes "w1") ready_to_judge
      {n = or_node (node_by ready_to_judge (pos 1))} refl refl refl refl

retry_node-recover-IsRefused_example :
    IsRefused pending (retry_node (call 13 []) (pos 1) pending)
    × IsRefused
        (recover (call 12 []) (codes "w0") pending).0
        (retry_node (call 13 []) (pos 1) (recover (call 12 []) (codes "w0") pending).0)
unfolding run new_graph first_fault refuse narrow_fault last_attempt
retry_node-recover-IsRefused_example =
    retry_node-recover-IsRefused (call 12 []) (call 13 []) (codes "w0") (pos 1) pending
      {n = or_node (node_by pending (pos 1))} {a = or_attempt (find runs pending.attempts)} refl
      refl refl

start_next-Admitted_example : Admitted 6 fresh
unfolding start_next new_graph first_fault refuse narrow_fault
start_next-Admitted_example = start_next-Admitted (call 6 a1) (codes "w0") fresh refl

abbrev some_usage : WorkUsage
some_usage = record no_usage { iterations = 3; input_tokens = 10; output_tokens = 4 }

prune_attempt_evidence-IsPruned_example :
    IsPrunedPair ready_to_judge judged (prune_attempt_evidence ready_to_judge judged)
prune_attempt_evidence-IsPruned_example = prune_attempt_evidence-IsPruned ready_to_judge judged

validate_spec-IsRunnable_example : IsRunnable two_nodes
validate_spec-IsRunnable_example =
    validate_spec-IsRunnable same_case same_case two_nodes validate_two_nodes

invalidation_enough_example :
    (add_ancestors 5 fresh.nodes (pos 1 ∷ []) [] ≡ ancestors fresh.nodes (pos 2))
    × (dependents_loop 5 fresh.nodes (pos 2 ∷ []) ≡ invalidate_dependents (pos 2) fresh.nodes)
unfolding new_graph first_fault refuse narrow_fault find int_eq
invalidation_enough_example = invalidation_enough 5 fresh.nodes (pos 2) (omega arith)

-- The dependent stands first in the plan.
abbrev reversed : Spec
reversed = record {
  goal = codes "g";
  nodes = node_spec (pos 2) (pos 1 ∷ []) ∷ node_spec (pos 1) [] ∷ [];
}

abbrev done_first : Graph
done_first =
    step (call 10 (codes "e3")) (proposes (codes "ok") (codes "w1"))
      (run verified (run working (made (new_graph same_case same_case 5 defaults reversed))))

-- A change of the workspace makes the finished node stale and ready again, but leaves its ready
-- dependent ready, and StartNext then starts the dependent first.
early_start_test :
    (map (λ n. n.state) done_first.nodes ≡ NodeState.ready ∷ NodeState.done ∷ [])
    × (map (λ n. n.state) (step (call 11 (codes "a2")) (starts (codes "w2")) done_first).nodes
        ≡ NodeState.running ∷ NodeState.ready ∷ [])
unfolding step run new_graph first_fault refuse narrow_fault bounded
early_start_test = (refl, refl)

-- ===== src/GoalGraph/New.antt =====
-- internal/goalgraph/graph.go, New: the graph made of an approved plan. A cost is counted in
-- millionths of a dollar.
use collomia.Common.{
  ℕ, suc, ◌*◌, min, false, List, [], ◌∷◌, ◌==◌, Option, none, some, if◌then◌else◌, String, str_eq,
}
use collomia.Common.Text.{Codes, trim_space}
use collomia.Writescope.{Normalized, normal, failed, normalize}
use collomia.GoalGraph.Data.{Execution, NodeState, Node, WorkUsage, Graph}
use collomia.GoalGraph.Budget.{no_usage, valid_work_usage, enforce}
use collomia.GoalGraph.Ready.{refresh_ready}
use collomia.GoalGraph.Spec.{NodeSpec, Spec, SpecFault, is_isolated_spec, validate_spec}

-- normalizeExecution on the executions that a valid plan has.
abbrev pub lane_of : String → Execution
lane_of e =
    if str_eq e "read_only"
    then Execution.read_only
    else if str_eq e "isolated_write"
    then Execution.isolated_write
    else Execution.primary

-- The options that the modelled fields need; 0 stands for every value not above 0.
pub record Options : Type 0 where
  pub max_attempts_per_node : ℕ
  pub aggregate_iterations : ℕ
  pub aggregate_tokens : ℕ
  pub aggregate_cost : ℕ
  pub active_wall_seconds : ℕ
  pub accounting_started : ℕ
  pub initial_primary : WorkUsage

abbrev pub dollar : ℕ
dollar = 1000000

abbrev default : ℕ → ℕ → ℕ
default n d = if n == 0 then d else n

unfoldable pub normalized_options : Options → Options
normalized_options o = record o {
  max_attempts_per_node = default o.max_attempts_per_node 2;
  aggregate_iterations = min (default o.aggregate_iterations 96) 10000;
  aggregate_tokens = min (default o.aggregate_tokens 1000000) 100000000;
  aggregate_cost = min (default o.aggregate_cost (5 * dollar)) (1000 * dollar);
  active_wall_seconds = min (default o.active_wall_seconds (30 * 60)) (24 * 60 * 60);
}

abbrev pub scopes_of : Normalized → List Codes
scopes_of (failed e) = []
scopes_of (normal scopes) = scopes

abbrev pub unless_fault : Option SpecFault → Option Graph → Option Graph
unless_fault none g = g
unless_fault (some f) g = none

module _ (lower fold : ℕ → ℕ) where
  -- The nodes of a plan, from a position on.
  unfoldable pub new_nodes : ℕ → List NodeSpec → List Node
  unfolding trim_space normalize
  new_nodes position [] = []
  new_nodes position (n ∷ ns) =
      let rest = new_nodes (suc position) ns in
      record {
        id = n.id;
        position = position;
        title = trim_space n.title;
        depends_on = n.depends_on;
        acceptance = n.acceptance;
        execution = lane_of n.execution;
        write_paths = scopes_of (normalize lower fold n.write_paths (is_isolated_spec n));
        state = NodeState.proposed;
        active_attempt_id = [];
        accepted_attempt_id = [];
        attempt_ids = [];
      }
      ∷ rest

  -- The graph of New before its nodes are read and its budget enforced.
  unfoldable pub drafted : ℕ → Options → Spec → Graph
  unfolding new_nodes
  drafted now o s = record {
    generation = 1;
    nodes = new_nodes 0 s.nodes;
    attempts = [];
    evidence = [];
    mutation_generation = 0;
    workspace_token = [];
    max_attempts_per_node = o.max_attempts_per_node;
    accounting = record {
      started = if o.accounting_started == 0 then now else o.accounting_started;
      primary = o.initial_primary;
      automatic_reads = no_usage;
      automatic_writers = no_usage;
      active_elapsed = 0;
      active_since = now;
    };
    aggregate_budget = record {
      iterations = o.aggregate_iterations;
      tokens = o.aggregate_tokens;
      cost = o.aggregate_cost;
      active_wall_seconds = o.active_wall_seconds;
    };
    pause_requested = false;
    pause_reached = false;
    outcome = none;
    updated = now;
  }

  -- New; a plan that is not valid, or a usage that is not, makes no graph.
  unfoldable pub new_graph : ℕ → Options → Spec → Option Graph
  unfolding validate_spec normalized_options drafted valid_work_usage refresh_ready enforce
  new_graph now opts s =
      let o = normalized_options opts in
      let g = enforce now false (refresh_ready (drafted now o s)) in
      let checked = if valid_work_usage o.initial_primary then some g else none in
      unless_fault (validate_spec lower fold s) checked

-- ===== src/GoalGraph/Spec.antt =====
-- internal/goalgraph/graph.go: an approved plan and its validation. `lower` and `fold` are the case
-- tables of the scopes of internal/writescope/scope.go.
pub mod Valid
use collomia.Common.{
  ℕ, zero, suc, ◌+◌, ◌*◌, min, Bool, true, false, not, ◌&&◌, ◌||◌, List, [], ◌∷◌, map, any, all,
  is_empty, length, ltb, ◌==◌, Option, none, some, if◌then◌else◌, String, str_eq,
}
use collomia.Common.Int.{ℤ, pos, int_eq, has_int}
use collomia.Common.Text.{Codes, trim_space, byte_len}
use collomia.Writescope.{Normalized, normal, failed, normalize, is_whole}
use collomia.Plan.Data.{Step}
use collomia.Plan.Validate.{is_blank}
use collomia.Plan.Cycle.{Search, clear, found, out, dependency_cycle}

pub record NodeSpec : Type 0 where
  pub id : ℤ
  pub title : Codes
  pub depends_on : List ℤ
  pub acceptance : List Codes
  pub execution : String
  pub write_paths : List Codes

pub record Spec : Type 0 where
  pub goal : Codes
  pub nodes : List NodeSpec

pub data SpecFault : Type 0 where
  no_goal long_goal no_nodes too_many_nodes zero_id no_title long_title : SpecFault
  many_criteria bad_criterion bad_scope no_scope wide_scope bad_execution : SpecFault
  repeated_id unknown_dependency self_dependency repeated_dependency cycle : SpecFault
  unfinished mixed_lanes not_leaf : SpecFault

-- The first fault of a list of checks.
unfoldable pub first_fault : List (Option SpecFault) → Option SpecFault
first_fault [] = none
first_fault (none ∷ later) = first_fault later
first_fault (some f ∷ later) = some f

unfoldable pub refuse : Bool → SpecFault → Option SpecFault
refuse bad f = if bad then some f else none

abbrev pub max_graph_nodes : ℕ
max_graph_nodes = 12

abbrev pub paths_fault : Normalized → Option SpecFault
paths_fault (failed e) = some bad_scope
paths_fault (normal scopes) = none

unfoldable pub narrow_fault : Normalized → Option SpecFault
narrow_fault (failed e) = some bad_scope
narrow_fault (normal scopes) = refuse (is_whole scopes) wide_scope

abbrev pub is_serial : String → Bool
is_serial e = str_eq e "" || str_eq e "primary" || str_eq e "read_only"

module _ (lower fold : ℕ → ℕ) where
  -- The switch on the execution of a node.
  unfoldable pub lane_fault : NodeSpec → Option SpecFault
  unfolding normalize narrow_fault
  lane_fault n =
      if is_serial n.execution
      then paths_fault (normalize lower fold n.write_paths false)
      else if str_eq n.execution "isolated_write"
      then first_fault (
          refuse (is_empty n.write_paths) no_scope
          ∷ narrow_fault (normalize lower fold n.write_paths true)
          ∷ [])
      else some bad_execution

  unfoldable pub node_fault : List ℤ → NodeSpec → Option SpecFault
  unfolding int_eq is_blank byte_len lane_fault has_int
  node_fault seen n = first_fault (
      refuse (int_eq n.id (pos 0)) zero_id
      ∷ refuse (is_blank n.title) no_title
      ∷ refuse (ltb 512 (byte_len n.title)) long_title
      ∷ refuse (ltb 8 (length n.acceptance)) many_criteria
      ∷ refuse (any (λ c. is_blank c || ltb 512 (byte_len c)) n.acceptance) bad_criterion
      ∷ lane_fault n
      ∷ refuse (has_int seen n.id) repeated_id
      ∷ [])

  unfoldable pub node_faults : List ℤ → List NodeSpec → Option SpecFault
  unfolding node_fault
  node_faults seen [] = none
  node_faults seen (n ∷ ns) =
      let later = node_faults (n.id ∷ seen) ns in first_fault (node_fault seen n ∷ later ∷ [])

unfoldable pub dependency_faults : List ℤ → ℤ → List ℤ → List ℤ → Option SpecFault
unfolding has_int int_eq
dependency_faults known i seen [] = none
dependency_faults known i seen (d ∷ ds) =
    let later = dependency_faults known i (d ∷ seen) ds in
    first_fault (
      refuse (not (has_int known d)) unknown_dependency
      ∷ refuse (int_eq d i) self_dependency
      ∷ refuse (has_int seen d) repeated_dependency
      ∷ later
      ∷ [])

unfoldable pub edge_faults : List ℤ → List NodeSpec → Option SpecFault
unfolding dependency_faults
edge_faults known [] = none
edge_faults known (n ∷ ns) =
    let later = edge_faults known ns in
    first_fault (dependency_faults known n.id [] n.depends_on ∷ later ∷ [])

-- The search for a cycle is that of internal/plan/plan.go, line by line, on nodes for steps.
abbrev pub as_step : NodeSpec → Step
as_step n = record {
  id = n.id;
  title = n.title;
  status = "";
  depends_on = n.depends_on;
  acceptance = n.acceptance;
  execution = n.execution;
  write_paths = n.write_paths;
  evidence = [];
}

abbrev pub cycle_fault : Search → Option SpecFault
cycle_fault (clear visited) = none
cycle_fault (found i) = some cycle
cycle_fault out = some unfinished

unfoldable pub spec_cycle : List NodeSpec → Search
unfolding dependency_cycle
spec_cycle nodes = dependency_cycle (map as_step nodes)

unfoldable pub validate_spec : (ℕ → ℕ) → (ℕ → ℕ) → Spec → Option SpecFault
unfolding is_blank byte_len node_faults edge_faults spec_cycle
validate_spec lower fold s = first_fault (
    refuse (is_blank s.goal) no_goal
    ∷ refuse (ltb 2048 (byte_len s.goal)) long_goal
    ∷ refuse (is_empty s.nodes) no_nodes
    ∷ refuse (ltb max_graph_nodes (length s.nodes)) too_many_nodes
    ∷ node_faults lower fold [] s.nodes
    ∷ edge_faults (map (λ n. n.id) s.nodes) s.nodes
    ∷ cycle_fault (spec_cycle s.nodes)
    ∷ [])

abbrev pub is_isolated_spec : NodeSpec → Bool
is_isolated_spec n = str_eq n.execution "isolated_write"

abbrev pub is_primary_spec : NodeSpec → Bool
is_primary_spec n = str_eq n.execution "" || str_eq n.execution "primary"

-- HasIsolatedWriters
unfoldable pub has_isolated_writers : Spec → Bool
has_isolated_writers s = any is_isolated_spec s.nodes

-- Whether a node depends on an isolated writer.
unfoldable pub feeds_on_writer : List NodeSpec → NodeSpec → Bool
unfolding int_eq
feeds_on_writer nodes n =
    any (λ d. any (λ m. int_eq m.id d && is_isolated_spec m) nodes) n.depends_on

unfoldable pub validate_executable_spec : (ℕ → ℕ) → (ℕ → ℕ) → Spec → Option SpecFault
unfolding validate_spec has_isolated_writers feeds_on_writer
validate_executable_spec lower fold s = first_fault (
    validate_spec lower fold s
    ∷ (if has_isolated_writers s then refuse (any is_primary_spec s.nodes) mixed_lanes else none)
    ∷ (if has_isolated_writers s
        then refuse (any (feeds_on_writer s.nodes) s.nodes) not_leaf
        else none)
    ∷ [])

-- ===== src/GoalGraph/Budget.antt =====
-- internal/goalgraph/graph.go: work accounting, the active clock, and the aggregate budget. Each
-- operation takes its reading of the clock as an argument.
pub mod Clock
pub mod Admission
use collomia.Common.{
  ℕ, ◌+◌, ◌-◌, ◌*◌, ◌%◌, min, Bool, true, false, not, ◌&&◌, ◌||◌, List, [], map, ltb, leb, ◌==◌,
  Option, none, some, if◌then◌else◌,
}
use collomia.GoalGraph.Data.{
  NodeState, Node, AttemptState, Attempt, Outcome, WorkUsage, AggregateBudget, Graph, is_done,
  is_in_review, runs, over,
}
use collomia.GoalGraph.Budget.Clock.{stop_active, active_elapsed, clear_pause}

abbrev pub no_usage : WorkUsage
no_usage = record {
  iterations = 0;
  input_tokens = 0;
  cached_tokens = 0;
  output_tokens = 0;
  cost = 0;
  cost_available = false;
  cost_estimated = false;
}

-- `usage == (WorkUsage{})`
abbrev pub is_no_usage : WorkUsage → Bool
is_no_usage u =
    u.iterations == 0
    && u.input_tokens == 0
    && u.cached_tokens == 0
    && u.output_tokens == 0
    && u.cost == 0
    && not u.cost_available
    && not u.cost_estimated

-- BillableTokens
unfoldable pub billable_tokens : WorkUsage → ℕ
billable_tokens u = u.input_tokens - min u.cached_tokens u.input_tokens + u.output_tokens

-- validWorkUsage, where no count is negative.
unfoldable pub valid_work_usage : WorkUsage → Bool
valid_work_usage u = leb u.cached_tokens u.input_tokens

abbrev has_priced_work : WorkUsage → Bool
has_priced_work u = ltb 0 (u.input_tokens + u.output_tokens) || ltb 0 u.cost

-- 2 ^ 64, the size of an int
abbrev pub word : ℕ
word = 18446744073709551616

-- addWorkUsage: a sum of ints wraps around.
unfoldable pub add_work_usage : WorkUsage → WorkUsage → WorkUsage
add_work_usage t u = record {
  iterations = (t.iterations + u.iterations) % word;
  input_tokens = (t.input_tokens + u.input_tokens) % word;
  cached_tokens = (t.cached_tokens + u.cached_tokens) % word;
  output_tokens = (t.output_tokens + u.output_tokens) % word;
  cost = t.cost + u.cost;
  cost_available =
      if has_priced_work u
      then if has_priced_work t then t.cost_available && u.cost_available else u.cost_available
      else t.cost_available;
  cost_estimated = t.cost_estimated || u.cost_estimated;
}

-- The total of usageSummaryLocked.
unfoldable pub total_usage : Graph → WorkUsage
unfolding add_work_usage
total_usage g =
    let lanes = g.accounting in
    add_work_usage (add_work_usage (add_work_usage no_usage lanes.primary) lanes.automatic_reads)
      lanes.automatic_writers

pub record BudgetStatus : Type 0 where
  pub limits : AggregateBudget
  pub usage : WorkUsage
  pub active_elapsed : ℕ
  pub remaining_iterations : ℕ
  pub remaining_tokens : ℕ
  pub remaining_cost : ℕ
  pub remaining_active_wall : ℕ
  pub cost_enforceable : Bool

abbrev pub second : ℕ
second = 1000000000

unfoldable pub budget_status : ℕ → Graph → BudgetStatus
unfolding total_usage billable_tokens active_elapsed
budget_status now g =
    let u = total_usage g in
    let limits = g.aggregate_budget in
    record {
      limits = limits;
      usage = u;
      active_elapsed = active_elapsed now g.accounting;
      remaining_iterations = limits.iterations - u.iterations;
      remaining_tokens = limits.tokens - billable_tokens u;
      remaining_cost = limits.cost - u.cost;
      remaining_active_wall = limits.active_wall_seconds * second - active_elapsed now g.accounting;
      cost_enforceable = u.input_tokens + u.output_tokens == 0 || u.cost_available;
    }

-- Whether a limit is reached, or at a boundary between two steps, crossed by the next.
abbrev pub exhausted : Bool → ℕ → ℕ → Bool
exhausted at_boundary used limit = if at_boundary then leb limit used else ltb limit used

-- The tests of enforceAggregateBudgetLocked.
unfoldable pub over_budget : ℕ → Bool → Graph → Bool
unfolding budget_status
over_budget now at_boundary g =
    let status = budget_status now g in
    exhausted at_boundary status.usage.iterations status.limits.iterations
    || exhausted at_boundary (billable_tokens status.usage) status.limits.tokens
    || status.cost_enforceable && exhausted at_boundary status.usage.cost status.limits.cost
    || exhausted at_boundary status.active_elapsed (status.limits.active_wall_seconds * second)

-- What exhaustAggregateLocked does to an attempt and to a node.
abbrev pub exhaust_attempt : ℕ → Attempt → Attempt
exhaust_attempt now a =
    if runs a then record a { state = AttemptState.budget_exhausted; finished = now } else a

abbrev pub exhaust_node : Node → Node
exhaust_node n =
    if is_done n.state || is_in_review n.state
    then n
    else record n { state = NodeState.budget_exhausted; active_attempt_id = [] }

unfoldable pub exhaust_aggregate : ℕ → Graph → Graph
unfolding stop_active clear_pause
exhaust_aggregate now g =
    let g = record g {
      attempts = map (exhaust_attempt now) g.attempts;
      nodes = map exhaust_node g.nodes;
    } in
    let g = stop_active now g in clear_pause (record g { outcome = some Outcome.budget_exhausted })

-- The graph after enforceAggregateBudgetLocked; it fails when `over_budget` holds.
unfoldable pub enforce : ℕ → Bool → Graph → Graph
unfolding over_budget exhaust_aggregate
enforce now at_boundary g = if over_budget now at_boundary g then exhaust_aggregate now g else g

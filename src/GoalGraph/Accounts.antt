-- ===== src/GoalGraph/Accounts.antt =====
-- internal/goalgraph/graph.go, RecordPrimaryUsage and the accounts.
use collomia.Common.{ℕ, ◌+◌, ◌*◌, ◌≤◌, ◌<◌, true, false, ◌==◌, some, ◌≡◌, ◌⊎◌, map}
use collomia.GoalGraph.Data.{Attempt, Outcome, WorkUsage, Graph, GraphError, Result, ok, err, runs}
use collomia.GoalGraph.Slots.{find}
use collomia.GoalGraph.Budget.{total_usage, billable_tokens, second, exhaust_attempt, exhaust_node}
use collomia.GoalGraph.Budget.Clock.{active_elapsed}
use collomia.GoalGraph.Budget.Admission.{Below}
use collomia.GoalGraph.Start.{Call, saved}
use collomia.GoalGraph.Propose.{node_by}
use collomia.GoalGraph.Operator.{in_primary_lane}

-- 2 ^ 63, the first count that no int is.
abbrev pub int_limit : ℕ
int_limit = 9223372036854775808

-- The totals of a graph and a usage together are ints.
pub record Fits (u : WorkUsage) (g : Graph) : Type 0 where
  pub iterations : (total_usage g).iterations + u.iterations < int_limit
  pub tokens :
      (total_usage g).input_tokens
        + u.input_tokens
        + ((total_usage g).output_tokens + u.output_tokens)
      < int_limit
  pub cached : (total_usage g).cached_tokens + u.cached_tokens < int_limit

-- The totals of the second graph are those of the first and the usage.
pub record Grown (u : WorkUsage) (g h : Graph) : Type 0 where
  pub iterations : (total_usage h).iterations ≡ (total_usage g).iterations + u.iterations
  pub input : (total_usage h).input_tokens ≡ (total_usage g).input_tokens + u.input_tokens
  pub cached : (total_usage h).cached_tokens ≡ (total_usage g).cached_tokens + u.cached_tokens
  pub output : (total_usage h).output_tokens ≡ (total_usage g).output_tokens + u.output_tokens
  pub cost : (total_usage h).cost ≡ (total_usage g).cost + u.cost

-- The usage of a graph is over one of its limits. A cost counts where every contribution has a
-- price, or where no token was used.
abbrev pub Exceeds : ℕ → Graph → Type 0
Exceeds now g =
    (g.aggregate_budget.iterations < (total_usage g).iterations)
    ⊎ (g.aggregate_budget.tokens < billable_tokens (total_usage g))
    ⊎ ((((total_usage g).input_tokens + (total_usage g).output_tokens == 0 ≡ true)
          ⊎ ((total_usage g).cost_available ≡ true))
        × (g.aggregate_budget.cost < (total_usage g).cost))
    ⊎ (g.aggregate_budget.active_wall_seconds * second < active_elapsed now g.accounting)

-- What RecordPrimaryUsage does with a usage that it refuses: nothing.
abbrev pub IsRefusedUsage : WorkUsage → Graph → Graph × Result (Unit {0}) → Type 0
IsRefusedUsage u g r =
    (r.0 ≡ g)
    × (((r.1 ≡ err GraphError.invalid_usage) × (u.input_tokens < u.cached_tokens))
        ⊎ ((r.1 ≡ err GraphError.wrong_lane)
            × ((a : Attempt) × (find runs g.attempts ≡ some a)
                × (in_primary_lane (node_by g a.node_id) ≡ false))))

-- What it does with one that it takes: the usage counts, and a graph over a limit ends.
abbrev pub IsCounted : Call → WorkUsage → Graph → Graph × Result (Unit {0}) → Type 0
IsCounted c u g r =
    Grown u g r.0
    × (((r.1 ≡ saved c (ok tt)) × Below ◌≤◌ c.now r.0 × (r.0.outcome ≡ g.outcome))
        ⊎ ((r.1 ≡ saved c (err GraphError.aggregate_budget))
            × Exceeds c.now r.0
            × (r.0.outcome ≡ some Outcome.budget_exhausted)))

-- The graph before exhaustAggregateLocked stops its clock.
abbrev closed : ℕ → Graph → Graph
closed now g = record g {
  attempts = map (exhaust_attempt now) g.attempts;
  nodes = map exhaust_node g.nodes;
}

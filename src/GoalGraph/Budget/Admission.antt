-- ===== src/GoalGraph/Budget/Admission.antt =====
-- internal/goalgraph/graph.go: what the aggregate budget lets start, and what it lets be recorded.
use collomia.Common.{
  ℕ, ◌*◌, ◌≤◌, ◌<◌, Bool, true, false, ◌&&◌, ◌||◌, any, leb, ltb, if◌then◌else◌, ◌≡◌, refl, arith,
}
use collomia.Common.Text.{Codes}
use collomia.GoalGraph.Data.{Node, Attempt, Graph, GraphError, Result, ok, err, runs, over}
use collomia.GoalGraph.Budget.{billable_tokens, total_usage, budget_status, second, over_budget}
use collomia.GoalGraph.Budget.Clock.{active_elapsed}
use collomia.GoalGraph.Start.{Call, saved, start_next}

-- The usage of a graph is below each limit, or at most at it, as a relation on ℕ says.
pub record Below (R : ℕ → ℕ → Type 0) (now : ℕ) (g : Graph) : Type 0 where
  pub iterations : R (total_usage g).iterations g.aggregate_budget.iterations
  pub tokens : R (billable_tokens (total_usage g)) g.aggregate_budget.tokens
  pub cost : (total_usage g).cost_available ≡ true → R (total_usage g).cost g.aggregate_budget.cost
  pub wall : R (active_elapsed now g.accounting) (g.aggregate_budget.active_wall_seconds * second)

all_false :
    (a b c d : Bool)
    → a || b || c || d ≡ false
    → (a ≡ false) × (b ≡ false) × (c ≡ false) × (d ≡ false)
all_false a b c d h = ground arith

leb-false : (m n : ℕ) → leb n m ≡ false → m < n
leb-false m n h = ground arith

ltb-false : (m n : ℕ) → ltb n m ≡ false → m ≤ n
ltb-false m n h = ground arith

priced : (e a x : Bool) → (e || a) && x ≡ false → a ≡ true → x ≡ false
priced e a x h k = ground arith

-- The graph has something left of each resource.
within→Below : (now : ℕ) (g : Graph) → over_budget now true g ≡ false → Below ◌<◌ now g
unfolding over_budget budget_status
within→Below now g h =
    let (i, t, k, w) = all_false _ _ _ _ h in
    record {
      iterations = leb-false _ _ i;
      tokens = leb-false _ _ t;
      cost = λ e. leb-false _ _ (priced _ _ _ k e);
      wall = leb-false _ _ w;
    }

-- The graph has gone over none of its limits.
pub within→AtMost : (now : ℕ) (g : Graph) → over_budget now false g ≡ false → Below ◌≤◌ now g
unfolding over_budget budget_status
within→AtMost now g h =
    let (i, t, k, w) = all_false _ _ _ _ h in
    record {
      iterations = ltb-false _ _ i;
      tokens = ltb-false _ _ t;
      cost = λ e. ltb-false _ _ (priced _ _ _ k e);
      wall = ltb-false _ _ w;
    }

-- A guard that returns an error has not held where the result is no error.
pub guard_ok {ℓ} :
    {A : Type ℓ} (b : Bool) (g : Graph) (e : GraphError) (r : Graph × Result A) {x : A}
    → (if b then (g, err e) else r).1 ≡ ok x
    → (b ≡ false) × (r.1 ≡ ok x)
guard_ok true g e r h = cc
guard_ok false g e r h = (refl, h)

pub budget_ok {ℓ} :
    {A : Type ℓ} (c : Call) (b : Bool) (g : Graph) (e : GraphError) (r : Graph × Result A) {x : A}
    → (if b then (g, saved c (err e)) else r).1 ≡ ok x
    → (b ≡ false) × (r.1 ≡ ok x)
budget_ok c true g e r h = ground arith
budget_ok c false g e r h = (refl, h)

-- What StartNext has found where it starts an attempt.
pub record Admitted (now : ℕ) (g : Graph) : Type 0 where
  pub live : over g ≡ false
  pub not_paused : g.pause_requested ≡ false
  pub alone : any runs g.attempts ≡ false
  pub below : Below ◌<◌ now g

-- StartNext starts an attempt only on a graph that has no outcome, is not paused and runs nothing,
-- and whose usage is below its limit of iterations, of tokens, of active time and, where every
-- contribution has a price, of cost.
pub start_next-Admitted :
    (c : Call) (token : Codes) (g : Graph) {r : Node × Attempt}
    → (start_next c token g).1 ≡ ok r
    → Admitted c.now g
unfolding start_next
start_next-Admitted c token g h =
    let (live, h1) = guard_ok (over g) g GraphError.terminal _ h in
    let (calm, h2) = guard_ok g.pause_requested g GraphError.paused _ h1 in
    let (alone, h3) = guard_ok (any runs g.attempts) g GraphError.already_running _ h2 in
    let (within, h4) = budget_ok c (over_budget c.now true g) _ GraphError.aggregate_budget _ h3 in
    record { live = live; not_paused = calm; alone = alone; below = within→Below c.now g within }

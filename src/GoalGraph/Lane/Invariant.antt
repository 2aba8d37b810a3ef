-- ===== src/GoalGraph/Lane/Invariant.antt =====
-- internal/goalgraph/graph.go: what holds of a graph between two operations of its primary lane.
use collomia.Common.{
  ℕ, ◌≤◌, Bool, true, false, List, count, length, some, ◌≡◌, ◌⊎◌, map, All, Distinct, if◌then◌else◌,
  refl,
}
use collomia.Common.Int.{ℤ}
use collomia.GoalGraph.Data.{Node, Attempt, Graph, is_running, active, runs, over}
use collomia.GoalGraph.Slots.{find}
use collomia.GoalGraph.Propose.{with_id}

-- Nothing runs.
pub record Idle (attempts : List Attempt) (nodes : List Node) : Type 0 where
  pub no_attempt : count runs attempts ≡ 0
  pub no_node : count active nodes ≡ 0

-- One attempt runs, and its node is the one that runs and names it.
pub record Busy (attempts : List Attempt) (nodes : List Node) (a : Attempt) (n : Node)
    : Type 0 where
  pub found : find runs attempts ≡ some a
  pub one_attempt : count runs attempts ≡ 1
  pub node : find (with_id a.node_id) nodes ≡ some n
  pub running : is_running n.state ≡ true
  pub one_node : count active nodes ≡ 1
  pub named : n.active_attempt_id ≡ a.id

abbrev pub Lane : List Attempt → List Node → Type 0
Lane attempts nodes = Idle attempts nodes ⊎ ((a : Attempt) × (n : Node) × Busy attempts nodes a n)

-- What an ended graph is: nothing runs, no pause is asked for, and the clock stands.
pub record Rest (nodes : List Node) (requested reached : Bool) (since : ℕ) : Type 0 where
  pub no_node : count active nodes ≡ 0
  pub not_requested : requested ≡ false
  pub not_reached : reached ≡ false
  pub clock_stands : since ≡ 0

abbrev pub Quiet : Graph → Type 0
Quiet g = Rest g.nodes g.pause_requested g.pause_reached g.accounting.active_since

abbrev pub node_ids : List Node → List ℤ
node_ids nodes = map (λ n. n.id) nodes

-- A node has had no more attempts than a graph allows.
abbrev pub Within : ℕ → Node → Type 0
Within bound n = length n.attempt_ids ≤ bound

pub record Inv (g : Graph) : Type 0 where
  pub lane : Lane g.attempts g.nodes
  pub distinct : Distinct (λ (i : ℤ). i) (node_ids g.nodes)
  pub bounded : All (Within g.max_attempts_per_node) g.nodes
  pub quiet : over g ≡ true → Quiet g
  pub paused : g.pause_reached ≡ true → g.pause_requested ≡ true

-- What holds of the graph after an operation.
abbrev pub After {ℓ} : {A : Type ℓ} → Graph × A → Type 0
After r = Inv r.0

-- A guard that returns early leaves the graph as it was.
pub guard-Inv {ℓ} :
    {A : Type ℓ} {g : Graph} (b : Bool) (x : A) (r : Graph × A)
    → Inv g
    → (b ≡ false → After r)
    → After (if b then (g, x) else r)
guard-Inv true x r v k = v
guard-Inv false x r v k = k refl

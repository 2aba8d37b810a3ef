-- ===== src/GoalGraph/Lane/Ends.antt =====
-- internal/goalgraph/graph.go: that a graph ends only when nothing runs.
use collomia.Common.{
  ℕ, ◌+◌, ◌-◌, true, false, List, [], ◌∷◌, map, all, count, ◌==◌, Option, none, some, ◌≡◌, refl,
  sym, inl, inr, arith, Bool-cases, All, Distinct, if_elim, subst,
}
use collomia.Common.Int.{ℤ}
use collomia.GoalGraph.Data.{
  Node, Attempt, Accounting, Outcome, Graph, is_running, is_done, active, runs, over,
}
use collomia.GoalGraph.Slots.{not_any→count}
use collomia.GoalGraph.Budget.{exhaust_attempt, exhaust_node, exhaust_aggregate}
use collomia.GoalGraph.Budget.Clock.{stop_active, clear_pause}
use collomia.GoalGraph.Ready.{reduced, conclude, conclude_by, reduce_outcome}
use collomia.GoalGraph.Lane.Invariant.{Lane, node_ids, Within, Inv}

-- The graph of `conclude`, field by field.
stop_active_lem :
    (now : ℕ) (g : Graph)
    → (a : Accounting) × (stop_active now g ≡ record g { accounting = a }) × (a.active_since ≡ 0)
unfolding stop_active
stop_active_lem now g = elim (Bool-cases (g.accounting.active_since == 0)) [
  | inl e ↦ (g.accounting, rw e, ground arith)
  | inr e ↦ (
    record g.accounting {
      active_elapsed = g.accounting.active_elapsed + (now - g.accounting.active_since);
      active_since = 0;
    },
    rw e,
    refl,
  )
]

-- Where no node runs, no attempt does.
pub no_node→no_attempt :
    (xs : List Attempt) (ns : List Node) → Lane xs ns → count active ns ≡ 0 → count runs xs ≡ 0
no_node→no_attempt xs ns (inl i) e = i.no_attempt
no_node→no_attempt xs ns (inr (a, n, b)) e = absurd (omega (arith, b.one_node))

pub no_attempt→no_node :
    (xs : List Attempt) (ns : List Node) → Lane xs ns → count runs xs ≡ 0 → count active ns ≡ 0
no_attempt→no_node xs ns (inl i) e = i.no_node
no_attempt→no_node xs ns (inr (a, n, b)) e = absurd (omega (arith, b.one_attempt))

-- A graph that ends with nothing running keeps what holds of it.
pub conclude-Inv :
    (o : Outcome) (now : ℕ) {g : Graph} → Inv g → count active g.nodes ≡ 0 → Inv (conclude o now g)
unfolding conclude clear_pause
conclude-Inv o now {g} v e =
    let (a, same, z) = stop_active_lem now (record g { outcome = some o }) in
    subst (λ (h : Graph). Inv (clear_pause h)) (sym same)
      (record {
        lane = v.lane;
        distinct = v.distinct;
        bounded = v.bounded;
        quiet =
            λ t. record { no_node = e; not_requested = refl; not_reached = refl; clock_stands = z };
        paused = λ t. cc;
      })

all_done→count : (ns : List Node) → all (λ n. is_done n.state) ns ≡ true → count active ns ≡ 0
all_done→count [] h = refl
all_done→count (n ∷ ns) h =
    let stopped : is_running n.state ≡ false = ground arith in ground (arith, all_done→count ns)

-- An outcome is found only where no node runs.
pub reduced-idle : (ns : List Node) (o : Outcome) → reduced ns ≡ some o → count active ns ≡ 0
unfolding reduced
reduced-idle ns o h = ground (arith, all_done→count ns, not_any→count active ns)

pub reduce_outcome-Inv : (now : ℕ) {g : Graph} → Inv g → Inv (reduce_outcome now g)
unfolding reduce_outcome
reduce_outcome-Inv now {g} v =
    if_elim (λ h. Inv h) (over g) (λ e. v)
      (λ e. by_outcome (reduced g.nodes) (reduced-idle g.nodes))
  where
    by_outcome :
        (o : Option Outcome)
        → ((p : Outcome) → o ≡ some p → count active g.nodes ≡ 0)
        → Inv (conclude_by o now g)
    by_outcome none h = v
    by_outcome (some p) h = conclude-Inv p now v (h p refl)

exhausted_attempts : (now : ℕ) (xs : List Attempt) → count runs (map (exhaust_attempt now) xs) ≡ 0
exhausted_attempts now [] = refl
exhausted_attempts now (x ∷ xs) = ground (arith, exhausted_attempts now xs)

exhausted_nodes : (ns : List Node) → count active (map exhaust_node ns) ≡ 0
exhausted_nodes [] = refl
exhausted_nodes (n ∷ ns) =
    let stopped : is_running (exhaust_node n).state ≡ false = ground arith in
    ground (arith, exhausted_nodes ns)

exhausted_ids : (ns : List Node) → node_ids (map exhaust_node ns) ≡ node_ids ns
exhausted_ids [] = refl
exhausted_ids (n ∷ ns) = ground (arith, exhausted_ids ns)

exhausted-Within :
    (bound : ℕ) (ns : List Node) → All (Within bound) ns → All (Within bound) (map exhaust_node ns)
exhausted-Within bound [] h = tt
exhausted-Within bound (n ∷ ns) h = (ground arith, exhausted-Within bound ns h.1)

pub exhaust_aggregate-Inv : (now : ℕ) {g : Graph} → Inv g → Inv (exhaust_aggregate now g)
unfolding exhaust_aggregate clear_pause
exhaust_aggregate-Inv now {g} v =
    let h : Graph = record g {
      attempts = map (exhaust_attempt now) g.attempts;
      nodes = map exhaust_node g.nodes;
    } in
    let (a, same, z) = stop_active_lem now h in
    subst (λ (k : Graph). Inv (clear_pause (record k { outcome = some Outcome.budget_exhausted })))
      (sym same)
      (record {
        lane = inl (record {
          no_attempt = exhausted_attempts now g.attempts;
          no_node = exhausted_nodes g.nodes;
        });
        distinct = subst (Distinct (λ (i : ℤ). i)) (sym (exhausted_ids g.nodes)) v.distinct;
        bounded = exhausted-Within g.max_attempts_per_node g.nodes v.bounded;
        quiet = λ t. record {
          no_node = exhausted_nodes g.nodes;
          not_requested = refl;
          not_reached = refl;
          clock_stands = z;
        };
        paused = λ t. cc;
      })

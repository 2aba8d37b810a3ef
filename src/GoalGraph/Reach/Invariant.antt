-- ===== src/GoalGraph/Reach/Invariant.antt =====
-- internal/goalgraph/graph.go: what holds of every graph that operations reach from a new one.
use collomia.Common.{
  ℕ, suc, false, List, [], ◌∷◌, count, Option, none, some, ◌≡◌, refl, sym, ap, inl, arith, All,
  Distinct, if_elim, subst,
}
use collomia.Common.Int.{ℤ}
use collomia.GoalGraph.Data.{Graph, active}
use collomia.GoalGraph.Budget.{valid_work_usage, over_budget, enforce}
use collomia.GoalGraph.Ready.{refresh_ready}
use collomia.GoalGraph.Start.{Call}
use collomia.GoalGraph.Spec.{NodeSpec, Spec, SpecFault, validate_spec}
use collomia.GoalGraph.Spec.Valid.{spec_ids, IsRunnable, validate_spec-IsRunnable}
use collomia.GoalGraph.New.{
  Options, normalized_options, unless_fault, new_nodes, drafted, new_graph,
}
use collomia.GoalGraph.Lane.Invariant.{Inv, node_ids, Within}
use collomia.GoalGraph.Lane.Nodes.{refresh_ready-Inv}
use collomia.GoalGraph.Lane.Ends.{exhaust_aggregate-Inv}
use collomia.GoalGraph.Reach.{Op, run, run-Inv}

module _ (lower fold : ℕ → ℕ) where
  new_nodes-ids : (k : ℕ) (ns : List NodeSpec) → node_ids (new_nodes lower fold k ns) ≡ spec_ids ns
  unfolding new_nodes
  new_nodes-ids k [] = refl
  new_nodes-ids k (n ∷ ns) = ap (λ is. n.id ∷ is) (new_nodes-ids (suc k) ns)

  new_nodes-idle : (k : ℕ) (ns : List NodeSpec) → count active (new_nodes lower fold k ns) ≡ 0
  unfolding new_nodes
  new_nodes-idle k [] = refl
  new_nodes-idle k (n ∷ ns) = new_nodes-idle (suc k) ns

  new_nodes-Within :
      (bound k : ℕ) (ns : List NodeSpec) → All (Within bound) (new_nodes lower fold k ns)
  unfolding new_nodes
  new_nodes-Within bound k [] = tt
  new_nodes-Within bound k (n ∷ ns) = (omega arith, new_nodes-Within bound (suc k) ns)

  drafted-Inv : (now : ℕ) (o : Options) (s : Spec) → IsRunnable s → Inv (drafted lower fold now o s)
  unfolding drafted
  drafted-Inv now o s r = record {
    lane = inl (record { no_attempt = refl; no_node = new_nodes-idle 0 s.nodes });
    distinct = subst (Distinct (λ (i : ℤ). i)) (sym (new_nodes-ids 0 s.nodes)) r.distinct;
    bounded = new_nodes-Within o.max_attempts_per_node 0 s.nodes;
    quiet = λ e. cc;
    paused = λ e. cc;
  }

  -- A graph, where there is one, keeps the invariant.
  abbrev Made : Option Graph → Type 0
  Made none = Unit
  Made (some g) = Inv g

  unless_fault-Made :
      (o : Option SpecFault) (x : Option Graph) → (o ≡ none → Made x) → Made (unless_fault o x)
  unless_fault-Made none x h = h refl
  unless_fault-Made (some f) x h = tt

  new_graph-Made : (now : ℕ) (opts : Options) (s : Spec) → Made (new_graph lower fold now opts s)
  unfolding new_graph enforce
  new_graph-Made now opts s =
      let o = normalized_options opts in
      unless_fault-Made (validate_spec lower fold s) _ (λ valid.
        let w = drafted-Inv now o s (validate_spec-IsRunnable lower fold s valid) in
        let ready = refresh_ready (drafted lower fold now o s) in
        if_elim Made (valid_work_usage o.initial_primary)
          (λ e.
            if_elim Inv (over_budget now false ready)
              (λ f. exhaust_aggregate-Inv now (refresh_ready-Inv w)) (λ f. refresh_ready-Inv w))
          (λ e. tt))

  pub new_graph-Inv :
      (now : ℕ) (opts : Options) (s : Spec) {g : Graph}
      → new_graph lower fold now opts s ≡ some g
      → Inv g
  new_graph-Inv now opts s h = subst Made h (new_graph-Made now opts s)

  -- From a new graph, whatever methods of the primary lane are called and whatever they return, at
  -- most one attempt runs; the node that runs is the one it works on and names it; no node has had
  -- more attempts than the graph allows; and once the graph has an outcome nothing runs, no pause
  -- stands, and the active clock is stopped.
  pub run-Inv_from_new :
      (now : ℕ) (opts : Options) (s : Spec) {g : Graph} (xs : List (Call × Op))
      → new_graph lower fold now opts s ≡ some g
      → Inv (run xs g)
  run-Inv_from_new now opts s xs h = run-Inv xs (new_graph-Inv now opts s h)

-- ===== src/GoalGraph/Spec/Valid.antt =====
-- internal/goalgraph/graph.go, ValidateSpec: what a plan that it admits is.
use mathlib.Core.List.{Memᴰ}
use collomia.Common.{
  ℕ, ◌≤◌, Bool, true, false, not, List, [], ◌∷◌, map, length, is_empty, ltb, Option, none, some,
  ◌≡◌, ◌≢◌, refl, arith, All, Distinct, subst,
}
use collomia.Common.Int.{ℤ, int_eq, has_int, has_int→Mem, int_eq_refl}
use collomia.Plan.Cycle.{Search, clear, found, out, dependency_cycle}
use collomia.Plan.Acyclic.{Needs, IsExact, dependency_cycle-IsExact}
use collomia.GoalGraph.Spec.{
  NodeSpec, Spec, SpecFault, first_fault, refuse, max_graph_nodes, as_step, cycle_fault, spec_cycle,
  node_fault, node_faults, dependency_faults, edge_faults, validate_spec,
}

-- Where there is no fault, no check has one.
no_fault-All : (fs : List (Option SpecFault)) → first_fault fs ≡ none → All (λ f. f ≡ none) fs
unfolding first_fault
no_fault-All [] h = tt
no_fault-All (none ∷ fs) h = (refl, no_fault-All fs h)
no_fault-All (some f ∷ fs) h = cc

refuse-none : (b : Bool) (f : SpecFault) → refuse b f ≡ none → b ≡ false
unfolding refuse
refuse-none true f h = cc
refuse-none false f h = refl

abbrev pub spec_ids : List NodeSpec → List ℤ
spec_ids ns = map (λ n. n.id) ns

ne_of_false : (x y : ℤ) → int_eq x y ≡ false → x ≢ y
ne_of_false x y off e =
    let on : int_eq x y ≡ true = subst (λ (z : ℤ). int_eq x z ≡ true) e (int_eq_refl x) in cc

-- An id that is in no list that begins with another.
has_int-cons :
    (i : ℤ) (seen : List ℤ) (x : ℤ)
    → has_int (i ∷ seen) x ≡ false
    → (x ≢ i) × (has_int seen x ≡ false)
unfolding has_int
has_int-cons i seen x h = (ne_of_false x i (ground arith), ground arith)

-- What the loop over the nodes has seen none of.
abbrev Unseen : List ℤ → List ℤ → Type 0
Unseen seen ids = All (λ i. has_int seen i ≡ false) ids

Unseen-cons :
    (i : ℤ) (seen ids : List ℤ) → Unseen (i ∷ seen) ids → Unseen seen ids × All (λ x. x ≢ i) ids
Unseen-cons i seen [] h = (tt, tt)
Unseen-cons i seen (x ∷ xs) h =
    let (ne, off) = has_int-cons i seen x h.0 in
    let (rest, apart) = Unseen-cons i seen xs h.1 in ((off, rest), (ne, apart))

module _ (lower fold : ℕ → ℕ) where
  node_fault-repeated :
      (seen : List ℤ) (n : NodeSpec)
      → node_fault lower fold seen n ≡ none
      → has_int seen n.id ≡ false
  unfolding node_fault
  node_fault-repeated seen n h =
      let (zero_ok, (title_ok, (length_ok, (count_ok, (criteria_ok, (lane_ok, (fresh, _))))))) =
        no_fault-All _ h in
      refuse-none _ _ fresh

  node_faults-Distinct :
      (seen : List ℤ) (ns : List NodeSpec)
      → node_faults lower fold seen ns ≡ none
      → Unseen seen (spec_ids ns) × Distinct (λ (i : ℤ). i) (spec_ids ns)
  unfolding node_faults
  node_faults-Distinct seen [] h = (tt, tt)
  node_faults-Distinct seen (n ∷ ns) h =
      let (here, (later, _)) = no_fault-All _ h in
      let (unseen, distinct) = node_faults-Distinct (n.id ∷ seen) ns later in
      let (rest, apart) = Unseen-cons n.id seen (spec_ids ns) unseen in
      ((node_fault-repeated seen n here, rest), (apart, distinct))

-- The dependencies that the plan allows a node.
abbrev pub Allowed : List ℤ → ℤ → List ℤ → Type 0
Allowed known i ds = All (λ d. Memᴰ d known × (d ≢ i)) ds

dependency_faults-Allowed :
    (known : List ℤ) (i : ℤ) (seen ds : List ℤ)
    → dependency_faults known i seen ds ≡ none
    → Allowed known i ds
unfolding dependency_faults
dependency_faults-Allowed known i seen [] h = tt
dependency_faults-Allowed known i seen (d ∷ ds) h =
    let (k, (self, (again, (later, _)))) = no_fault-All _ h in
    let off : not (has_int known d) ≡ false = refuse-none _ _ k in
    let on : has_int known d ≡ true = ground arith in
    (
      (has_int→Mem known d on, ne_of_false d i (refuse-none _ _ self)),
      dependency_faults-Allowed known i (d ∷ seen) ds later,
    )

edge_faults-Allowed :
    (known : List ℤ) (ns : List NodeSpec)
    → edge_faults known ns ≡ none
    → All (λ n. Allowed known n.id n.depends_on) ns
unfolding edge_faults
edge_faults-Allowed known [] h = tt
edge_faults-Allowed known (n ∷ ns) h =
    let (here, (later, _)) = no_fault-All _ h in
    (dependency_faults-Allowed known n.id [] n.depends_on here, edge_faults-Allowed known ns later)

-- A plan that can be run.
pub record IsRunnable (s : Spec) : Type 0 where
  pub some_node : is_empty s.nodes ≡ false
  pub bounded : length s.nodes ≤ max_graph_nodes
  pub distinct : Distinct (λ (i : ℤ). i) (spec_ids s.nodes)
  pub allowed : All (λ n. Allowed (spec_ids s.nodes) n.id n.depends_on) s.nodes
  pub acyclic : (a : ℤ) → ¬ Needs (map as_step s.nodes) a a

cycle_fault-acyclic :
    (ns : List NodeSpec)
    → cycle_fault (spec_cycle ns) ≡ none
    → (a : ℤ) → ¬ Needs (map as_step ns) a a
unfolding spec_cycle
cycle_fault-acyclic ns h =
    exact (dependency_cycle (map as_step ns)) h (dependency_cycle-IsExact (map as_step ns))
  where
    exact :
        (r : Search)
        → cycle_fault r ≡ none
        → IsExact (map as_step ns) r
        → (a : ℤ) → ¬ Needs (map as_step ns) a a
    exact (clear visited) h e = e
    exact (found c) h e = cc
    exact out h e = cc

-- A plan that ValidateSpec admits has between 1 and 12 nodes with distinct ids, every dependency is
-- another node of the plan, and no node depends on itself, directly or through others.
pub validate_spec-IsRunnable :
    (lower fold : ℕ → ℕ) (s : Spec) → validate_spec lower fold s ≡ none → IsRunnable s
unfolding validate_spec
validate_spec-IsRunnable lower fold s h =
    let (goal, (long, (empty, (many, (nodes, (edges, (acyclic, _))))))) = no_fault-All _ h in
    let fits : ltb max_graph_nodes (length s.nodes) ≡ false = refuse-none _ _ many in
    record {
      some_node = refuse-none _ _ empty;
      bounded = ground arith;
      distinct = (node_faults-Distinct lower fold [] s.nodes nodes).1;
      allowed = edge_faults-Allowed (spec_ids s.nodes) s.nodes edges;
      acyclic = cycle_fault-acyclic s.nodes acyclic;
    }

-- ===== src/GoalGraph/Ready/Stale.antt =====
-- internal/goalgraph/graph.go, invalidateUnconsumedReadsLocked and invalidateDependentsLocked: the
-- nodes that a controlled change of the workspace makes stale. A Go set of ids is the list of its
-- members. The search for ancestors goes at most one level deeper for each node, and each pass over
-- the dependents marks a node or is the last, so that fuel beyond the number of nodes is enough.
use collomia.Common.{
  ℕ, zero, suc, Bool, false, not, ◌&&◌, ◌||◌, List, [], ◌∷◌, map, any, length, Option, none, some,
  if◌then◌else◌,
}
use collomia.Common.Int.{ℤ, int_eq, has_int}
use collomia.Common.Text.{text_eq}
use collomia.GoalGraph.Data.{NodeState, Node, Attempt, Graph, is_done, is_ready, is_proposed}
use collomia.GoalGraph.Slots.{find}

abbrev pub deps_of : Option Node → List ℤ
deps_of none = []
deps_of (some n) = n.depends_on

-- addAncestors over a list of dependencies.
unfoldable pub add_ancestors : ℕ → List Node → List ℤ → List ℤ → List ℤ
unfolding has_int int_eq find
add_ancestors fuel nodes [] found = found
add_ancestors zero nodes (d ∷ ds) found = found
add_ancestors (suc fuel) nodes (d ∷ ds) found =
    let deeper = add_ancestors fuel nodes (deps_of (find (λ n. int_eq n.id d) nodes)) (d ∷ found) in
    add_ancestors (suc fuel) nodes ds (if has_int found d then found else deeper)

unfoldable pub ancestors : List Node → ℤ → List ℤ
unfolding add_ancestors
ancestors nodes i =
    add_ancestors (suc (length nodes)) nodes (deps_of (find (λ n. int_eq n.id i) nodes)) []

-- What invalidateDependentsLocked does to a node that depends on an invalid one.
abbrev pub stale_dependent : Node → Node
stale_dependent n =
    if is_done n.state || is_ready n.state || is_proposed n.state
    then record n { state = NodeState.stale; accepted_attempt_id = [] }
    else n

-- One pass over the nodes: the nodes, the invalid ids, and whether one was added.
unfoldable pub dependents_pass : List Node → List ℤ → List Node × List ℤ × Bool
unfolding has_int
dependents_pass [] invalid = ([], invalid, false)
dependents_pass (n ∷ ns) invalid =
    let hit = not (has_int invalid n.id) && any (has_int invalid) n.depends_on in
    let rest = dependents_pass ns (if hit then n.id ∷ invalid else invalid) in
    ((if hit then stale_dependent n else n) ∷ rest.0, rest.1, hit || rest.2)

unfoldable pub dependents_loop : ℕ → List Node → List ℤ → List Node
unfolding dependents_pass
dependents_loop zero nodes invalid = nodes
dependents_loop (suc fuel) nodes invalid =
    let pass = dependents_pass nodes invalid in
    let again = dependents_loop fuel pass.0 pass.1 in if pass.2 then again else pass.0

unfoldable pub invalidate_dependents : ℤ → List Node → List Node
unfolding dependents_loop
invalidate_dependents i nodes = dependents_loop (suc (length nodes)) nodes (i ∷ [])

abbrev accepted_reads : Option Attempt → Bool
accepted_reads none = false
accepted_reads (some a) = not a.may_have_mutated

-- Whether a node's result predates the mutation by a node that did not consume it.
unfoldable pub unconsumed : List Attempt → ℤ → List ℤ → Node → Bool
unfolding find text_eq int_eq has_int
unconsumed attempts i before n =
    not (int_eq n.id i)
    && not (has_int before n.id)
    && is_done n.state
    && accepted_reads (find (λ a. text_eq a.id n.accepted_attempt_id) attempts)

abbrev pub stale_read : Node → Node
stale_read n = record n { state = NodeState.stale; accepted_attempt_id = [] }

-- Whether a node is the one with an id, and to be made stale.
abbrev pub due : List Attempt → ℤ → List ℤ → ℤ → Node → Bool
due attempts i before j n = int_eq n.id j && unconsumed attempts i before n

-- One node of invalidateUnconsumedReadsLocked, by its id.
unfoldable pub stale_unconsumed : List Attempt → ℤ → List ℤ → ℤ → List Node → List Node
unfolding unconsumed invalidate_dependents int_eq
stale_unconsumed attempts i before j nodes =
    if any (due attempts i before j) nodes
    then invalidate_dependents j
        (map (λ n. if due attempts i before j n then stale_read n else n) nodes)
    else nodes

unfoldable pub stale_each : List Attempt → ℤ → List ℤ → List ℤ → List Node → List Node
unfolding stale_unconsumed
stale_each attempts i before [] nodes = nodes
stale_each attempts i before (j ∷ js) nodes =
    stale_each attempts i before js (stale_unconsumed attempts i before j nodes)

unfoldable pub invalidate_unconsumed_reads : ℤ → Graph → Graph
unfolding stale_each ancestors
invalidate_unconsumed_reads i g = record g {
  nodes = stale_each g.attempts i (ancestors g.nodes i) (map (λ n. n.id) g.nodes) g.nodes;
}

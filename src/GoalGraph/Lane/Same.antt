-- ===== src/GoalGraph/Lane/Same.antt =====
-- internal/goalgraph/graph.go: what a pass over the nodes leaves alone when it makes nodes ready,
-- stale or out of attempts, namely identities, attempts, and every node that runs.
use collomia.Common.{
  ℕ, Bool, true, false, not, ◌&&◌, ◌||◌, List, zero, suc, [], ◌∷◌, map, all, any, length, leb, some,
  if◌then◌else◌, ◌≡◌, refl, ◌∙◌, arith, Bool-cases, inl, inr, if_elim, subst,
}
use collomia.Common.Int.{ℤ, has_int}
use collomia.GoalGraph.Data.{
  NodeState, Node, Attempt, Graph, is_running, is_done, is_ready, is_proposed, is_waiting,
}
use collomia.GoalGraph.Slots.{find, write}
use collomia.GoalGraph.Ready.{
  done_in, refresh_node, refresh_ready, invalidate_node, invalidate_all_done,
}
use collomia.GoalGraph.Ready.Stale.{
  ancestors, invalidate_dependents, invalidate_unconsumed_reads, due, stale_dependent,
  dependents_pass, dependents_loop, unconsumed, stale_read, stale_unconsumed, stale_each,
}

-- A node after a pass and before it.
pub record Kept (m n : Node) : Type 0 where
  pub id : m.id ≡ n.id
  pub attempt_ids : m.attempt_ids ≡ n.attempt_ids
  pub active : is_running m.state ≡ is_running n.state
  pub untouched : is_running n.state ≡ true → m ≡ n

abbrev pub Same : List Node → List Node → Type 0
Same [] [] = Unit
Same (m ∷ ms) (n ∷ ns) = Kept m n × Same ms ns
Same _ _ = ⊥

pub Kept-refl : (n : Node) → Kept n n
Kept-refl n = record { id = refl; attempt_ids = refl; active = refl; untouched = λ e. refl }

pub Kept-trans : (l m n : Node) → Kept l m → Kept m n → Kept l n
Kept-trans l m n h k = record {
  id = h.id ∙ k.id;
  attempt_ids = h.attempt_ids ∙ k.attempt_ids;
  active = h.active ∙ k.active;
  untouched = λ e. h.untouched (k.active ∙ e) ∙ k.untouched e;
}

pub Same-refl : (ns : List Node) → Same ns ns
Same-refl [] = tt
Same-refl (n ∷ ns) = (Kept-refl n, Same-refl ns)

pub Same-trans : (ls ms ns : List Node) → Same ls ms → Same ms ns → Same ls ns
Same-trans [] [] [] h k = tt
Same-trans [] [] (n ∷ ns) h k = k
Same-trans [] (m ∷ ms) ns h k = elim h [ ]
Same-trans (l ∷ ls) [] ns h k = elim h [ ]
Same-trans (l ∷ ls) (m ∷ ms) [] h k = k
Same-trans (l ∷ ls) (m ∷ ms) (n ∷ ns) h k = (Kept-trans l m n h.0 k.0, Same-trans ls ms ns h.1 k.1)

pub Same-map :
    (f : Node → Node) → ((n : Node) → Kept (f n) n) → (ns : List Node) → Same (map f ns) ns
Same-map f h [] = tt
Same-map f h (n ∷ ns) = (h n, Same-map f h ns)

-- A node that does not run may get another state that does not run.
pub Kept-idle :
    (m n : Node)
    → m.id ≡ n.id
    → m.attempt_ids ≡ n.attempt_ids
    → is_running m.state ≡ false
    → is_running n.state ≡ false
    → Kept m n
Kept-idle m n e f h k = record {
  id = e;
  attempt_ids = f;
  active = h ∙ ground arith;
  untouched = λ r. cc;
}

-- One node is replaced.
pub Same-write :
    (p : Node → Bool) {n : Node} (m : Node) (ns : List Node)
    → find p ns ≡ some n
    → Kept m n
    → Same (write p m ns) ns
unfolding find write
Same-write p m [] at k = tt
Same-write p {n} m (x ∷ ns) at k = elim (Bool-cases (p x)) [
  | inl hit ↦ let e : n ≡ x = ground arith in rw hit (subst (λ y. Kept m y) e k, Same-refl ns)
  | inr miss ↦ rw miss (Kept-refl x, Same-write p m ns (ground arith) k)
]

-- A waiting or a finished state is no running one.
pub stopped :
    (s : NodeState)
    → not (is_waiting s) && not (is_done s) && not (is_ready s) ≡ false
    → is_running s ≡ false
stopped NodeState.proposed h = refl
stopped NodeState.ready h = refl
stopped NodeState.running h = cc
stopped NodeState.retryable h = refl
stopped NodeState.stale h = refl
stopped NodeState.blocked h = refl
stopped NodeState.awaiting_review h = refl
stopped NodeState.integrated h = refl
stopped NodeState.cancelled h = refl
stopped NodeState.budget_exhausted h = refl
stopped NodeState.done h = refl

refresh_node-Kept : (bound : ℕ) (nodes : List Node) (n : Node) → Kept (refresh_node bound nodes n) n
unfolding refresh_node
refresh_node-Kept bound nodes n =
    let P : Node → Type 0 = λ m. Kept m n in
    if_elim P (not (is_waiting n.state) || not (all (done_in nodes) n.depends_on))
      (λ e. Kept-refl n)
      (λ e.
        let idle : is_running n.state ≡ false = stopped n.state (ground arith) in
        if_elim P (leb bound (length n.attempt_ids)) (λ f. Kept-idle _ n refl refl refl idle)
          (λ f. Kept-idle _ n refl refl refl idle))

pub refresh_ready-Same : (g : Graph) → Same (refresh_ready g).nodes g.nodes
unfolding refresh_ready
refresh_ready-Same g = Same-map _ (refresh_node-Kept g.max_attempts_per_node g.nodes) g.nodes

invalidate_node-Kept : (n : Node) → Kept (invalidate_node n) n
invalidate_node-Kept n =
    if_elim (λ m. Kept m n) (is_done n.state)
      (λ e. Kept-idle _ n refl refl refl (stopped n.state (ground arith))) (λ e. Kept-refl n)

pub invalidate_all_done-Same : (g : Graph) → Same (invalidate_all_done g).nodes g.nodes
unfolding invalidate_all_done
invalidate_all_done-Same g = Same-map _ invalidate_node-Kept g.nodes

stale_dependent-Kept : (n : Node) → Kept (stale_dependent n) n
stale_dependent-Kept n =
    if_elim (λ m. Kept m n) (is_done n.state || is_ready n.state || is_proposed n.state)
      (λ e. Kept-idle _ n refl refl refl (stopped_early n.state e)) (λ e. Kept-refl n)
  where
    stopped_early :
        (s : NodeState) → is_done s || is_ready s || is_proposed s ≡ true → is_running s ≡ false
    stopped_early s h = ground arith

dependents_pass-Same : (ns : List Node) (invalid : List ℤ) → Same (dependents_pass ns invalid).0 ns
unfolding dependents_pass
dependents_pass-Same [] invalid = tt
dependents_pass-Same (n ∷ ns) invalid = (
  if_elim (λ m. Kept m n) (not (has_int invalid n.id) && any (has_int invalid) n.depends_on)
      (λ e. stale_dependent-Kept n) (λ e. Kept-refl n),
  dependents_pass-Same ns _,
)

dependents_loop-Same :
    (fuel : ℕ) (ns : List Node) (invalid : List ℤ) → Same (dependents_loop fuel ns invalid) ns
unfolding dependents_loop
dependents_loop-Same zero ns invalid = Same-refl ns
dependents_loop-Same (suc fuel) ns invalid =
    let once = dependents_pass-Same ns invalid in
    let pass = dependents_pass ns invalid in
    if_elim (λ ms. Same ms ns) pass.2
      (λ e. Same-trans _ _ ns (dependents_loop-Same fuel pass.0 pass.1) once) (λ e. once)

invalidate_dependents-Same : (i : ℤ) (ns : List Node) → Same (invalidate_dependents i ns) ns
unfolding invalidate_dependents
invalidate_dependents-Same i ns = dependents_loop-Same (suc (length ns)) ns (i ∷ [])

due-Kept :
    (attempts : List Attempt) (i : ℤ) (before : List ℤ) (j : ℤ) (n : Node)
    → Kept (if due attempts i before j n then stale_read n else n) n
unfolding unconsumed
due-Kept attempts i before j n =
    if_elim (λ m. Kept m n) (due attempts i before j n)
      (λ e. Kept-idle _ n refl refl refl (stopped n.state (ground arith))) (λ e. Kept-refl n)

stale_unconsumed-Same :
    (attempts : List Attempt) (i : ℤ) (before : List ℤ) (j : ℤ) (ns : List Node)
    → Same (stale_unconsumed attempts i before j ns) ns
unfolding stale_unconsumed
stale_unconsumed-Same attempts i before j ns =
    if_elim (λ ms. Same ms ns) (any (due attempts i before j) ns)
      (λ e.
        Same-trans _ _ ns (invalidate_dependents-Same j _)
          (Same-map _ (due-Kept attempts i before j) ns))
      (λ e. Same-refl ns)

stale_each-Same :
    (attempts : List Attempt) (i : ℤ) (before js : List ℤ) (ns : List Node)
    → Same (stale_each attempts i before js ns) ns
unfolding stale_each
stale_each-Same attempts i before [] ns = Same-refl ns
stale_each-Same attempts i before (j ∷ js) ns =
    Same-trans _ _ ns (stale_each-Same attempts i before js _)
      (stale_unconsumed-Same attempts i before j ns)

pub invalidate_unconsumed_reads-Same :
    (i : ℤ) (g : Graph) → Same (invalidate_unconsumed_reads i g).nodes g.nodes
unfolding invalidate_unconsumed_reads
invalidate_unconsumed_reads-Same i g =
    stale_each-Same g.attempts i (ancestors g.nodes i) (map (λ n. n.id) g.nodes) g.nodes

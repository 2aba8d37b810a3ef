-- ===== src/GoalGraph/Lane/Nodes.antt =====
-- internal/goalgraph/graph.go: that a pass over the nodes, and the end of a graph, keep what holds
-- between two operations.
use collomia.Common.{
  ℕ, true, List, [], ◌∷◌, count, length, none, some, ◌≡◌, refl, sym, ◌∙◌, ap, inl, inr, arith,
  Bool-cases, All, Distinct, subst,
}
use collomia.Common.Int.{ℤ, int_eq}
use collomia.GoalGraph.Data.{Node, Attempt, Graph, is_running, active}
use collomia.GoalGraph.Slots.{find}
use collomia.GoalGraph.Ready.{refresh_ready}
use collomia.GoalGraph.Ready.Stale.{invalidate_unconsumed_reads}
use collomia.GoalGraph.Propose.{with_id}
use collomia.GoalGraph.Lane.Same.{Same, refresh_ready-Same, invalidate_unconsumed_reads-Same}
use collomia.GoalGraph.Lane.Invariant.{Lane, node_ids, Within, Inv}

count-Same : (ms ns : List Node) → Same ms ns → count active ms ≡ count active ns
count-Same [] [] s = refl
count-Same [] (n ∷ ns) s = elim s [ ]
count-Same (m ∷ ms) [] s = elim s [ ]
count-Same (m ∷ ms) (n ∷ ns) s = ground (arith, count-Same ms ns s.1, s.0.active)

ids-Same : (ms ns : List Node) → Same ms ns → node_ids ms ≡ node_ids ns
ids-Same [] [] s = refl
ids-Same [] (n ∷ ns) s = elim s [ ]
ids-Same (m ∷ ms) [] s = elim s [ ]
ids-Same (m ∷ ms) (n ∷ ns) s = cc (s.0.id, ids-Same ms ns s.1)

find-Same :
    (i : ℤ) (ms ns : List Node) {n : Node}
    → Same ms ns
    → find (with_id i) ns ≡ some n
    → is_running n.state ≡ true
    → find (with_id i) ms ≡ some n
unfolding find
find-Same i [] [] s e r = cc
find-Same i [] (k ∷ ns) s e r = elim s [ ]
find-Same i (m ∷ ms) [] s e r = elim s [ ]
find-Same i (m ∷ ms) (k ∷ ns) {n} s e r =
    let same : with_id i m ≡ with_id i k = ap (λ j. int_eq j i) s.0.id in
    elim (Bool-cases (with_id i k)) [
      | inl hit ↦
          let e : k ≡ n = ground arith in
          rw (same, hit) (ap some (s.0.untouched (ap (λ (x : Node). is_running x.state) e ∙ r) ∙ e))
      | inr miss ↦ rw (same, miss) (find-Same i ms ns s.1 (ground arith) r)
    ]

Within-Same :
    (bound : ℕ) (ms ns : List Node) → Same ms ns → All (Within bound) ns → All (Within bound) ms
Within-Same bound [] [] s h = tt
Within-Same bound [] (n ∷ ns) s h = tt
Within-Same bound (m ∷ ms) [] s h = elim s [ ]
Within-Same bound (m ∷ ms) (n ∷ ns) s h =
    (omega (arith, ap (length) s.0.attempt_ids), Within-Same bound ms ns s.1 h.1)

Lane-Same : (xs : List Attempt) (ms ns : List Node) → Same ms ns → Lane xs ns → Lane xs ms
Lane-Same xs ms ns s (inl i) =
    inl (record { no_attempt = i.no_attempt; no_node = count-Same ms ns s ∙ i.no_node })
Lane-Same xs ms ns s (inr (a, n, b)) = inr (
  a,
  n,
  record {
    found = b.found;
    one_attempt = b.one_attempt;
    node = find-Same a.node_id ms ns s b.node b.running;
    running = b.running;
    one_node = count-Same ms ns s ∙ b.one_node;
    named = b.named;
  },
)

module _ {g : Graph} (v : Inv g) where
  pub nodes-Inv : (ms : List Node) → Same ms g.nodes → Inv (record g { nodes = ms })
  nodes-Inv ms s = record {
    lane = Lane-Same g.attempts ms g.nodes s v.lane;
    distinct = subst (Distinct (λ (i : ℤ). i)) (sym (ids-Same ms g.nodes s)) v.distinct;
    bounded = Within-Same g.max_attempts_per_node ms g.nodes s v.bounded;
    quiet = λ e. record {
      no_node = count-Same ms g.nodes s ∙ (v.quiet e).no_node;
      not_requested = (v.quiet e).not_requested;
      not_reached = (v.quiet e).not_reached;
      clock_stands = (v.quiet e).clock_stands;
    };
    paused = v.paused;
  }

  pub refresh_ready-Inv : Inv (refresh_ready g)
  unfolding refresh_ready
  refresh_ready-Inv = nodes-Inv _ (refresh_ready-Same g)

  pub invalidate_unconsumed_reads-Inv : (i : ℤ) → Inv (invalidate_unconsumed_reads i g)
  unfolding invalidate_unconsumed_reads
  invalidate_unconsumed_reads-Inv i = nodes-Inv _ (invalidate_unconsumed_reads-Same i g)

  -- A graph that goes on again.
  pub reopened-Inv : Inv (record g { outcome = none })
  reopened-Inv = record {
    lane = v.lane;
    distinct = v.distinct;
    bounded = v.bounded;
    quiet = λ e. cc;
    paused = v.paused;
  }

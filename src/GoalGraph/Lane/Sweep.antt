-- ===== src/GoalGraph/Lane/Sweep.antt =====
-- internal/goalgraph/graph.go, Cancel and Recover: that a sweep over the attempts leaves nothing
-- running.
use collomia.Common.{
  ℕ, true, false, List, [], ◌∷◌, map, count, Option, none, some, ◌≡◌, refl, sym, inl, inr, arith,
  Bool-cases, All, All-Mem, subst,
}
use collomia.Common.Int.{ℤ, int_eq→eq}
use collomia.GoalGraph.Data.{NodeState, Node, Attempt, Failure, is_running, active, runs}
use collomia.GoalGraph.Slots.{find, find-Mem, count-write, map-write, All-write}
use collomia.GoalGraph.Propose.{with_id, release_node}
use collomia.GoalGraph.Operator.{release_found, cancel_nodes, cancel_attempt}
use collomia.GoalGraph.Recover.{
  interrupt, interrupted_failure, interrupted_state, add_failure, recover_node, recover_attempt,
  recover_attempts,
}
use collomia.GoalGraph.Lane.Invariant.{Busy, Lane, node_ids, Within}

-- Nodes after a sweep and before it.
pub record Swept (bound : ℕ) (ms ns : List Node) : Type 0 where
  pub no_node : count active ms ≡ 0
  pub ids : node_ids ms ≡ node_ids ns
  pub within : All (Within bound) ms

-- The node of the only attempt that runs gets a state that does not run.
released :
    (bound : ℕ) (st : NodeState) (ns : List Node) (i : ℤ) {n : Node}
    → is_running st ≡ false
    → find (with_id i) ns ≡ some n
    → is_running n.state ≡ true
    → count active ns ≡ 1
    → All (Within bound) ns
    → Swept bound (release_found st (some n) ns) ns
released bound st ns i {n} off at on one h =
    let (m, hit) = find-Mem (with_id i) ns at in
    let spot : find (with_id n.id) ns ≡ some n =
      subst (λ (j : ℤ). find (with_id j) ns ≡ some n) (sym (int_eq→eq n.id i hit)) at in
    record {
      no_node = ground (arith, count-write (with_id n.id) active (release_node st n) ns spot);
      ids = map-write (with_id n.id) (λ k. k.id) (release_node st n) ns spot refl;
      within =
          All-write (Within bound) (with_id n.id) (release_node st n) ns
            (All-Mem (Within bound) ns h m) h;
    }

idle_Swept :
    (bound : ℕ) (ns : List Node) → count active ns ≡ 0 → All (Within bound) ns → Swept bound ns ns
idle_Swept bound ns e h = record { no_node = e; ids = refl; within = h }

cancel_idle : (xs : List Attempt) (ns : List Node) → count runs xs ≡ 0 → cancel_nodes xs ns ≡ ns
unfolding cancel_nodes
cancel_idle [] ns e = refl
cancel_idle (x ∷ xs) ns e = ground (arith, cancel_idle xs ns)

-- The head of a list of attempts of which one runs.
busy_head :
    {x : Attempt} {xs : List Attempt} {ns : List Node} {a : Attempt} {n : Node}
    → Busy (x ∷ xs) ns a n
    → runs x ≡ true
    → (x ≡ a) × (count runs xs ≡ 0)
unfolding find
busy_head {x} {xs} {a = a} b on = (ground (arith, b.found), ground (arith, b.one_attempt))

busy_tail :
    {x : Attempt} {xs : List Attempt} {ns : List Node} {a : Attempt} {n : Node}
    → Busy (x ∷ xs) ns a n
    → runs x ≡ false
    → Busy xs ns a n
unfolding find
busy_tail b off = record {
  found = ground (arith, b.found);
  one_attempt = ground (arith, b.one_attempt);
  node = b.node;
  running = b.running;
  one_node = b.one_node;
  named = b.named;
}

module _ (bound : ℕ) (ns : List Node) (h : All (Within bound) ns) where
  cancel_busy :
      (xs : List Attempt) {a : Attempt} {n : Node}
      → Busy xs ns a n
      → Swept bound (cancel_nodes xs ns) ns
  unfolding cancel_nodes
  cancel_busy [] b = absurd (omega (arith, b.one_attempt))
  cancel_busy (x ∷ xs) {a} {n} b = elim (Bool-cases (runs x)) [
    | inl on ↦
        let (e, rest) = busy_head b on in
        let at : find (with_id x.node_id) ns ≡ some n =
          subst (λ (y : Attempt). find (with_id y.node_id) ns ≡ some n) (sym e) b.node in
        rw (on, at, cancel_idle xs (release_found NodeState.cancelled (some n) ns) rest)
          (released bound NodeState.cancelled ns x.node_id refl at b.running b.one_node h)
    | inr off ↦ rw off (cancel_busy xs (busy_tail b off))
  ]

  pub cancel_nodes-Swept : (xs : List Attempt) → Lane xs ns → Swept bound (cancel_nodes xs ns) ns
  cancel_nodes-Swept xs (inl i) =
      rw (cancel_idle xs ns i.no_attempt) (idle_Swept bound ns i.no_node h)
  cancel_nodes-Swept xs (inr (a, n, b)) = cancel_busy xs b

pub cancel_attempts-idle :
    (now : ℕ) (xs : List Attempt) → count runs (map (cancel_attempt now) xs) ≡ 0
cancel_attempts-idle now [] = refl
cancel_attempts-idle now (x ∷ xs) = ground (arith, cancel_attempts-idle now xs)

module _ (bound updated now : ℕ) where
  recover_idle :
      (xs : List Attempt) (ns : List Node)
      → count runs xs ≡ 0
      → (recover_attempts bound updated now xs ns).1 ≡ ns
  unfolding recover_attempts
  recover_idle [] ns e = refl
  recover_idle (x ∷ xs) ns e = elim (Bool-cases (runs x)) [
    | inl on ↦ absurd (ground arith)
    | inr off ↦ rw off (recover_idle xs ns (ground arith))
  ]

  interrupted_stops :
      (f : Option Failure) (n : Node) → is_running (interrupted_state bound f n) ≡ false
  interrupted_stops none n = ground arith
  interrupted_stops (some f) n = refl

  failure_stops : (f : Option Failure) (a : Attempt) → runs (add_failure f a) ≡ runs a
  failure_stops none a = refl
  failure_stops (some f) a = refl

  pub recover_attempts-idle :
      (xs : List Attempt) (ns : List Node)
      → count runs (recover_attempts bound updated now xs ns).0 ≡ 0
  unfolding recover_attempts
  recover_attempts-idle [] ns = refl
  recover_attempts-idle (x ∷ xs) ns =
      let n = find (with_id x.node_id) ns in
      let f = interrupted_failure now n x in
      let stop : runs (recover_attempt updated now n x) ≡ false =
        failure_stops f (interrupt updated now n x) in
      elim (Bool-cases (runs x)) [
        | inl on ↦ rw (on, stop) (recover_attempts-idle xs (recover_node bound f n ns))
        | inr off ↦ rw (off, off) (recover_attempts-idle xs ns)
      ]

  module _ (ns : List Node) (h : All (Within bound) ns) where
    recover_busy :
        (xs : List Attempt) {a : Attempt} {n : Node}
        → Busy xs ns a n
        → Swept bound (recover_attempts bound updated now xs ns).1 ns
    unfolding recover_attempts
    recover_busy [] b = absurd (omega (arith, b.one_attempt))
    recover_busy (x ∷ xs) {a} {n} b = elim (Bool-cases (runs x)) [
      | inl on ↦
          let (e, rest) = busy_head b on in
          let at : find (with_id x.node_id) ns ≡ some n =
            subst (λ (y : Attempt). find (with_id y.node_id) ns ≡ some n) (sym e) b.node in
          let f = interrupted_failure now (some n) x in
          let st = interrupted_state bound f n in
          rw (on, at, recover_idle xs (release_found st (some n) ns) rest)
            (released bound st ns x.node_id (interrupted_stops f n) at b.running b.one_node h)
      | inr off ↦ rw off (recover_busy xs (busy_tail b off))
    ]

    pub recover_attempts-Swept :
        (xs : List Attempt)
        → Lane xs ns
        → Swept bound (recover_attempts bound updated now xs ns).1 ns
    recover_attempts-Swept xs (inl i) =
        rw (recover_idle xs ns i.no_attempt) (idle_Swept bound ns i.no_node h)
    recover_attempts-Swept xs (inr (a, n, b)) = recover_busy xs b

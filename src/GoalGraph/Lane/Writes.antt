-- ===== src/GoalGraph/Lane/Writes.antt =====
-- internal/goalgraph/graph.go: that a write to the running attempt, and the end of it with its
-- node, keep what holds between two operations.
use collomia.Common.{
  Bool, true, false, List, count, length, some, ◌≡◌, sym, ◌∙◌, ap, inl, inr, arith, Distinct, subst,
  All-Mem,
}
use collomia.Common.Int.{ℤ}
use collomia.GoalGraph.Data.{Node, Attempt, Graph, is_running, active, runs}
use collomia.GoalGraph.Slots.{
  find, write, find-Mem, count-write, count-pos, find_unique, find-write, map-write, All-write,
}
use collomia.GoalGraph.Propose.{with_id, write_back}
use collomia.GoalGraph.Lane.Invariant.{Busy, Lane, Within, Inv}

-- The attempt that a pointer reaches, where it runs, is the one that the lane is busy with.
module _ (p : Attempt → Bool) {xs : List Attempt} {ns : List Node} {a : Attempt}
    (at : find p xs ≡ some a) (on : runs a ≡ true) where
  pub reached : Lane xs ns → (n : Node) × Busy xs ns a n
  reached (inl i) = absurd (omega (arith, count-pos p runs xs at on, i.no_attempt))
  reached (inr (b, n, busy)) =
      let e : a ≡ b = find_unique p runs xs busy.one_attempt busy.found at on in
      (n, subst (λ (c : Attempt). Busy xs ns c n) (sym e) busy)

  -- A write that leaves the attempt running on its node.
  pub keep-Lane :
      (b : Attempt)
      → runs b ≡ true
      → b.id ≡ a.id
      → b.node_id ≡ a.node_id
      → Lane xs ns
      → Lane (write p b xs) ns
  keep-Lane b r same there l =
      let (n, busy) = reached l in
      inr (
        b,
        n,
        record {
          found = find-write p runs b xs busy.one_attempt at on r;
          one_attempt = ground (arith, count-write p runs b xs at, busy.one_attempt);
          node = subst (λ (i : ℤ). find (with_id i) ns ≡ some n) (sym there) busy.node;
          running = busy.running;
          one_node = busy.one_node;
          named = busy.named ∙ sym same;
        },
      )

module _ {g : Graph} (v : Inv g) where
  pub keep-Inv :
      (p : Attempt → Bool) {a : Attempt} (b : Attempt)
      → find p g.attempts ≡ some a
      → runs a ≡ true
      → runs b ≡ true
      → b.id ≡ a.id
      → b.node_id ≡ a.node_id
      → Inv (record g { attempts = write p b g.attempts })
  keep-Inv p b at on r same there = record {
    lane = keep-Lane p at on b r same there v.lane;
    distinct = v.distinct;
    bounded = v.bounded;
    quiet = v.quiet;
    paused = v.paused;
  }

  -- The running attempt and its node end.
  pub write_back-Inv :
      (p : Attempt → Bool) {a : Attempt} {n : Node} (b : Attempt) (m : Node)
      → find p g.attempts ≡ some a
      → runs a ≡ true
      → find (with_id a.node_id) g.nodes ≡ some n
      → runs b ≡ false
      → b.node_id ≡ a.node_id
      → is_running m.state ≡ false
      → m.id ≡ n.id
      → m.attempt_ids ≡ n.attempt_ids
      → Inv (write_back p b m g) × (count active (write_back p b m g).nodes ≡ 0)
  unfolding write_back
  write_back-Inv p {a} {n} b m at on here off there still same ids =
      let (n', busy) = reached p at on v.lane in
      let spot : find (with_id b.node_id) g.nodes ≡ some n =
        subst (λ (i : ℤ). find (with_id i) g.nodes ≡ some n) (sym there) here in
      let e : n' ≡ n = cc (busy.node, here) in
      let was : is_running n.state ≡ true =
        subst (λ (k : Node). is_running k.state ≡ true) e busy.running in
      let idle : count active (write (with_id b.node_id) m g.nodes) ≡ 0 =
        ground (arith, count-write (with_id b.node_id) active m g.nodes spot, busy.one_node) in
      let within : Within g.max_attempts_per_node n =
        All-Mem (Within g.max_attempts_per_node) g.nodes v.bounded
          (find-Mem (with_id a.node_id) g.nodes here).0 in
      (
        record {
          lane = inl (record {
            no_attempt = ground (arith, count-write p runs b g.attempts at, busy.one_attempt);
            no_node = idle;
          });
          distinct =
              subst (Distinct (λ (i : ℤ). i))
                (sym (map-write (with_id b.node_id) (λ k. k.id) m g.nodes spot same)) v.distinct;
          bounded =
              All-write (Within g.max_attempts_per_node) (with_id b.node_id) m g.nodes
                (omega (arith, ap length ids, within)) v.bounded;
          quiet = λ o. record {
            no_node = idle;
            not_requested = (v.quiet o).not_requested;
            not_reached = (v.quiet o).not_reached;
            clock_stands = (v.quiet o).clock_stands;
          };
          paused = v.paused;
        },
        idle,
      )

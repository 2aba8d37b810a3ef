-- ===== src/GoalGraph/Lane/Opening.antt =====
-- internal/goalgraph/graph.go, StartNext: that a new attempt keeps what holds between two
-- operations.
use mathlib.Core.List.{Memᴰ}
use collomia.Common.{
  ℕ, ◌+◌, Bool, true, false, List, [], ◌∷◌, any, count, length, length-append, some, ◌≡◌, ◌≢◌, refl,
  sym, ap, inl, inr, arith, Bool-cases, All-Mem, Distinct, subst, ltb, count-append,
}
use collomia.Common.Int.{ℤ, int_eq, int_eq→eq, int_eq_refl}
use collomia.Common.Text.{Codes}
use collomia.GoalGraph.Data.{Node, Attempt, Graph, is_running, active, runs, over}
use collomia.GoalGraph.Slots.{
  find, write, find-Mem, find-append, count-write, map-write, All-write, not_any→count,
}
use collomia.GoalGraph.Propose.{with_id}
use collomia.GoalGraph.Start.{
  Call, ready_primary, opened, claimed, block_claim, block_ready, open_attempt,
}
use collomia.GoalGraph.Lane.Invariant.{node_ids, Within, Inv}
use collomia.GoalGraph.Lane.Same.{Same-write, Kept-idle}
use collomia.GoalGraph.Lane.Nodes.{nodes-Inv}
use collomia.GoalGraph.Lane.Ends.{reduce_outcome-Inv, no_attempt→no_node}

id-Mem : {n : Node} (ns : List Node) → Memᴰ n ns → Memᴰ n.id (node_ids ns)
id-Mem ns (Memᴰ.head e) = Memᴰ.head (ap (λ (k : Node). k.id) e)
id-Mem ns (Memᴰ.tail {xs = ms} m) = Memᴰ.tail (id-Mem ms m)

other_id : (i j : ℤ) → i ≢ j → int_eq j i ≡ false
other_id i j ne = elim (Bool-cases (int_eq j i)) [
  | inl e ↦ absurd (ne (sym (int_eq→eq j i e)))
  | inr e ↦ e
]

-- A node is found by its id where a pointer to it wrote.
find-write_id :
    (p : Node → Bool) {n : Node} (m : Node) (ns : List Node)
    → Distinct (λ (i : ℤ). i) (node_ids ns)
    → find p ns ≡ some n
    → m.id ≡ n.id
    → find (with_id n.id) (write p m ns) ≡ some m
unfolding find write
find-write_id p m [] d at same = cc
find-write_id p {n} m (k ∷ ns) d at same = elim (Bool-cases (p k)) [
  | inl hit ↦
      let mine : with_id n.id m ≡ true =
        subst (λ (i : ℤ). int_eq i n.id ≡ true) (sym same) (int_eq_refl n.id) in
      rw (hit, mine)
  | inr miss ↦
      let later : find p ns ≡ some n = ground arith in
      let apart : n.id ≢ k.id =
        All-Mem (λ y. y ≢ k.id) (node_ids ns) d.0 (id-Mem ns (find-Mem p ns later).0) in
      let off : with_id n.id k ≡ false = other_id n.id k.id apart in
      rw (miss, off) (find-write_id p m ns d.1 later same)
]

ready→idle : (n : Node) → ready_primary n ≡ true → is_running n.state ≡ false
ready→idle n h = ground arith

module _ (c : Call) {g : Graph} (v : Inv g) {n : Node}
    (at : find ready_primary g.nodes ≡ some n) where
  pub open_attempt-Inv :
      (token : Codes)
      → over g ≡ false
      → any runs g.attempts ≡ false
      → ltb g.max_attempts_per_node (length n.attempt_ids + 1) ≡ false
      → Inv (open_attempt c token n g)
  unfolding open_attempt
  open_attempt-Inv token live free room =
      let off : is_running n.state ≡ false = ready→idle n (find-Mem ready_primary g.nodes at).1 in
      let no_attempt : count runs g.attempts ≡ 0 = not_any→count runs g.attempts free in
      let no_node : count active g.nodes ≡ 0 =
        no_attempt→no_node g.attempts g.nodes v.lane no_attempt in
      let a : Attempt = opened c token g n in
      record {
        lane = inr (
          a,
          claimed c n,
          record {
            found = find-append runs g.attempts no_attempt refl;
            one_attempt = omega (arith, count-append runs g.attempts (a ∷ []), no_attempt);
            node = find-write_id ready_primary (claimed c n) g.nodes v.distinct at refl;
            running = refl;
            one_node = ground (arith, count-write ready_primary active (claimed c n) g.nodes at);
            named = refl;
          },
        );
        distinct =
            subst (Distinct (λ (i : ℤ). i))
              (sym (map-write ready_primary (λ k. k.id) (claimed c n) g.nodes at refl)) v.distinct;
        bounded =
            All-write (Within g.max_attempts_per_node) ready_primary (claimed c n) g.nodes
              (ground (arith, length-append n.attempt_ids (c.new_id ∷ []))) v.bounded;
        quiet = λ o. cc;
        paused = v.paused;
      }

  -- blockNodeLocked keeps it too.
  pub block_ready-Inv : (now : ℕ) → Inv (block_ready now n g)
  unfolding block_ready
  block_ready-Inv now =
      let off : is_running n.state ≡ false = ready→idle n (find-Mem ready_primary g.nodes at).1 in
      reduce_outcome-Inv now (
        nodes-Inv v _ (
          Same-write ready_primary (block_claim n) g.nodes at
            (Kept-idle (block_claim n) n refl refl refl off)))

-- ===== src/GoalGraph/Replay.antt =====
-- internal/goalgraph/graph.go, Recover and then RetryNode.
use collomia.Common.{
  ℕ, Bool, true, false, not, ◌||◌, List, any, is_empty, length, leb, Option, none, some,
  if◌then◌else◌, ◌≡◌, refl, sym, ◌∙◌, arith, if_elim, subst,
}
use collomia.Common.Int.{ℤ}
use collomia.Common.Text.{Codes, text_eq}
use collomia.GoalGraph.Data.{
  Node, Attempt, Outcome, Graph, GraphError, Result, err, is_blocked, is_in_review, runs, over,
}
use collomia.GoalGraph.Slots.{find}
use collomia.GoalGraph.Budget.Clock.{stop_active, clear_pause}
use collomia.GoalGraph.Ready.{
  refresh_ready, reduced, conclude, conclude_by, reduce_outcome, invalidate_all_done,
}
use collomia.GoalGraph.Start.{Call, save, drifted}
use collomia.GoalGraph.Results.{pending_is}
use collomia.GoalGraph.Propose.{node_by}
use collomia.GoalGraph.Operator.{
  is_outcome_blocked, is_outcome_review, ended_blocked, ambiguous, last_id, last_attempt,
  retry_node,
}
use collomia.GoalGraph.Recover.{recover_attempts, recovered, recover}
use collomia.GoalGraph.Lane.Same.{refresh_ready-Same, invalidate_all_done-Same}
use collomia.GoalGraph.Swept.{
  recover_attempts-SameKeys, recover_attempts-ambiguous, SameKeys, SameKeys-refl, SameKeys-trans,
  Same→SameKeys, SameKeys-find,
}

stop_active-nodes : (now : ℕ) (g : Graph) → (stop_active now g).nodes ≡ g.nodes
unfolding stop_active
stop_active-nodes now g = ground arith

stop_active-attempts : (now : ℕ) (g : Graph) → (stop_active now g).attempts ≡ g.attempts
unfolding stop_active
stop_active-attempts now g = ground arith

-- The end of a graph leaves its nodes and attempts.
reduce_outcome-nodes : (now : ℕ) (g : Graph) → (reduce_outcome now g).nodes ≡ g.nodes
unfolding reduce_outcome conclude clear_pause
reduce_outcome-nodes now g =
    if_elim (λ (h : Graph). h.nodes ≡ g.nodes) (over g) (λ e. refl)
      (λ e. by_outcome (reduced g.nodes))
  where
    by_outcome : (o : Option Outcome) → (conclude_by o now g).nodes ≡ g.nodes
    by_outcome none = refl
    by_outcome (some p) = stop_active-nodes now (record g { outcome = some p })

reduce_outcome-attempts : (now : ℕ) (g : Graph) → (reduce_outcome now g).attempts ≡ g.attempts
unfolding reduce_outcome conclude clear_pause
reduce_outcome-attempts now g =
    if_elim (λ (h : Graph). h.attempts ≡ g.attempts) (over g) (λ e. refl)
      (λ e. by_outcome (reduced g.nodes))
  where
    by_outcome : (o : Option Outcome) → (conclude_by o now g).attempts ≡ g.attempts
    by_outcome none = refl
    by_outcome (some p) = stop_active-attempts now (record g { outcome = some p })

module _ (c : Call) (token : Codes) (g : Graph) where
  swept_graph : Graph
  swept_graph =
      let r = recover_attempts g.max_attempts_per_node g.updated c.now g.attempts g.nodes in
      record g { attempts = r.0; nodes = r.1 }

  drift_swept : Graph
  drift_swept = if drifted g token then invalidate_all_done swept_graph else swept_graph

  recovered-SameKeys : SameKeys (recovered c token g).nodes g.nodes
  unfolding recovered swept_graph drift_swept
  recovered-SameKeys =
      let k = drift_swept in
      let w : SameKeys k.nodes swept_graph.nodes =
        if_elim (λ (h : Graph). SameKeys h.nodes swept_graph.nodes) (drifted g token)
          (λ e. Same→SameKeys _ _ (invalidate_all_done-Same swept_graph))
          (λ e. SameKeys-refl swept_graph.nodes) in
      subst (λ ns. SameKeys ns g.nodes) (sym (reduce_outcome-nodes c.now (refresh_ready k)))
        (SameKeys-trans _ k.nodes _ (Same→SameKeys _ _ (refresh_ready-Same k)) (
          SameKeys-trans _ swept_graph.nodes _ w
            (recover_attempts-SameKeys g.max_attempts_per_node g.updated c.now g.attempts g.nodes)))

  recovered-attempts :
      (recovered c token g).attempts
      ≡ (recover_attempts g.max_attempts_per_node g.updated c.now g.attempts g.nodes).0
  unfolding recovered refresh_ready invalidate_all_done swept_graph drift_swept
  recovered-attempts =
      reduce_outcome-attempts c.now (refresh_ready drift_swept)
      ∙ if_elim (λ (h : Graph). h.attempts ≡ swept_graph.attempts) (drifted g token) (λ e. refl)
          (λ e. refl)

-- A refusal: an error, and the graph as it was.
abbrev pub IsRefused : Graph → Graph × Result (Unit {0}) → Type 0
IsRefused g r = (r.0 ≡ g) × ((e : GraphError) × (r.1 ≡ err e))

guard-IsRefused :
    {g : Graph} (b : Bool) (e : GraphError) (r : Graph × Result (Unit {0}))
    → (b ≡ false → IsRefused g r)
    → IsRefused g (if b then (g, err e) else r)
guard-IsRefused true e r k = (refl, (e, refl))
guard-IsRefused false e r k = k refl

-- RetryNode refuses a node whose last attempt may have had an effect that nobody observed.
retry_node-refuses :
    (c : Call) (i : ℤ) (g : Graph) {n : Node} {a : Attempt}
    → node_by g i ≡ some n
    → last_attempt g n ≡ some a
    → ambiguous a ≡ true
    → IsRefused g (retry_node c i g)
unfolding retry_node
retry_node-refuses c i g {n} {a} at last risky =
    guard-IsRefused (is_outcome_review g.outcome) _ _ (λ e1.
      guard-IsRefused (not (is_outcome_blocked g.outcome)) _ _ (λ e2. rw at (
        guard-IsRefused (is_in_review n.state) _ _ (λ e3.
          guard-IsRefused (not (is_blocked n.state)) _ _ (λ e4.
            guard-IsRefused (leb g.max_attempts_per_node (length n.attempt_ids)) _ _ (λ e5.
              guard-IsRefused (is_empty n.attempt_ids) _ _ (λ e6. rw last (
                guard-IsRefused (not (ended_blocked a.state)) _ _
                  (λ e7. guard-IsRefused (ambiguous a) _ _ (λ e8. cc))))))))))

last_attempt_by :
    (h : Graph) (m : Node) (xs : List Attempt) (ids : List Codes) {b : Attempt}
    → h.attempts ≡ xs
    → m.attempt_ids ≡ ids
    → find (λ a. text_eq a.id (last_id ids)) xs ≡ some b
    → last_attempt h m ≡ some b
unfolding last_attempt
last_attempt_by h m xs ids {b} e k at =
    subst (λ ys. find (λ a. text_eq a.id (last_id m.attempt_ids)) ys ≡ some b) (sym e)
      (subst (λ is. find (λ a. text_eq a.id (last_id is)) xs ≡ some b) (sym k) at)

-- Where the last attempt on a node has started an action that must not be repeated and has no result
-- of it, RetryNode on the node returns an error and changes nothing, before recovery and after it.
pub retry_node-recover-IsRefused :
    (c d : Call) (token : Codes) (i : ℤ) (g : Graph) {n : Node} {a : Attempt}
    → node_by g i ≡ some n
    → last_attempt g n ≡ some a
    → pending_is (λ act. act.non_replayable) a.pending_action ≡ true
    → IsRefused g (retry_node d i g)
      × IsRefused (recover c token g).0 (retry_node d i (recover c token g).0)
unfolding recover last_attempt
retry_node-recover-IsRefused c d token i g {n} {a} at last risky =
    let now : IsRefused g (retry_node d i g) = retry_node-refuses d i g at last (rw risky refl) in
    let (m, found, same) = SameKeys-find i _ g.nodes (recovered-SameKeys c token g) at in
    let (b, there, unsafe) =
      recover_attempts-ambiguous g.max_attempts_per_node g.updated c.now (last_id n.attempt_ids)
        g.attempts g.nodes last risky in
    let h = save c (recovered c token g) in
    let newest : last_attempt h m ≡ some b =
      last_attempt_by h m _ n.attempt_ids (recovered-attempts c token g) same there in
    (
      now,
      if_elim (λ (r : Graph × Result (Unit {0})). IsRefused r.0 (retry_node d i r.0))
          (over g || not (any runs g.attempts || drifted g token)) (λ e. now)
          (λ e. retry_node-refuses d i h found newest unsafe),
    )

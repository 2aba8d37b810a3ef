-- ===== src/GoalGraph/Lane/Work.antt =====
-- internal/goalgraph/graph.go: that starting a node, and the record of its tool calls, keep what
-- holds between two operations.
use collomia.Common.{
  ◌+◌, ◌==◌, true, false, not, ◌&&◌, List, any, is_empty, length, ltb, Option, none, some,
  if◌then◌else◌, ◌≡◌, refl, sym, inl, inr, arith, ap, Bool-cases, if_elim, subst,
}
use collomia.Common.Text.{Codes, text_eq, trim_space}
use collomia.GoalGraph.Data.{Node, Attempt, Failure, Evidence, Graph, Result, is_some, runs, over}
use collomia.GoalGraph.Slots.{find}
use collomia.GoalGraph.Budget.{over_budget}
use collomia.GoalGraph.Ready.{refresh_ready, reduce_outcome, invalidate_all_done}
use collomia.GoalGraph.Start.{
  Call, save, ready_primary, ready_read, drifted, sync_workspace, launch, select, start_next,
}
use collomia.GoalGraph.Tools.{
  ToolAction, running_attempt, only_running, on_attempt, write_attempt, append_failure, begun,
  unknown_state, write_ahead, begin_action, begin_tool,
}
use collomia.GoalGraph.Results.{
  ToolResult, dated, returned, record_result, adopts, finish_action, finish_tool, record_failure,
}
use collomia.GoalGraph.Lane.Same.{invalidate_all_done-Same}
use collomia.GoalGraph.Lane.Invariant.{Inv, After, guard-Inv}
use collomia.GoalGraph.Lane.Nodes.{nodes-Inv, refresh_ready-Inv, reopened-Inv}
use collomia.GoalGraph.Lane.Ends.{reduce_outcome-Inv, exhaust_aggregate-Inv}
use collomia.GoalGraph.Lane.Writes.{keep-Inv}
use collomia.GoalGraph.Lane.Opening.{open_attempt-Inv, block_ready-Inv}
use collomia.GoalGraph.Lane.Noted.{record_result-Noted}

pub save-Inv : (c : Call) {g : Graph} → Inv g → Inv (save c g)
save-Inv c v = record {
  lane = v.lane;
  distinct = v.distinct;
  bounded = v.bounded;
  quiet = v.quiet;
  paused = v.paused;
}

-- Fields that no part of it reads.
pub token-Inv : (token : Codes) {g : Graph} → Inv g → Inv (record g { workspace_token = token })
token-Inv token v = record {
  lane = v.lane;
  distinct = v.distinct;
  bounded = v.bounded;
  quiet = v.quiet;
  paused = v.paused;
}

evidence-Inv :
    (i : Codes) (b : Attempt) (es : List Evidence) (g : Graph)
    → Inv (write_attempt i b g)
    → Inv (write_attempt i b (record g { evidence = es }))
unfolding write_attempt
evidence-Inv i b es g v = record {
  lane = v.lane;
  distinct = v.distinct;
  bounded = v.bounded;
  quiet = v.quiet;
  paused = v.paused;
}

pub invalidate_all_done-Inv : {g : Graph} → Inv g → Inv (invalidate_all_done g)
unfolding invalidate_all_done
invalidate_all_done-Inv {g} v = reopened-Inv (nodes-Inv v _ (invalidate_all_done-Same g))

module _ (token : Codes) {g : Graph} (v : Inv g) where
  sync_workspace-Inv : Inv (sync_workspace token g)
  unfolding sync_workspace
  sync_workspace-Inv =
      let w = if_elim (λ h. Inv h) (drifted g token) (λ e. invalidate_all_done-Inv v) (λ e. v) in
      refresh_ready-Inv (
        if_elim (λ h. Inv h)
          (is_empty (if drifted g token then invalidate_all_done g else g).workspace_token
            && not (is_empty token))
          (λ e. token-Inv token w) (λ e. w))

  sync_workspace_live : over g ≡ false → over (sync_workspace token g) ≡ false
  unfolding sync_workspace invalidate_all_done refresh_ready
  sync_workspace_live live = ground arith

  sync_workspace-attempts : (sync_workspace token g).attempts ≡ g.attempts
  unfolding sync_workspace invalidate_all_done refresh_ready
  sync_workspace-attempts = ground arith

module _ (c : Call) (token : Codes) {g : Graph} (v : Inv g) where
  launch-Inv :
      over g ≡ false
      → any runs g.attempts ≡ false
      → (o : Option Node) → find ready_primary g.nodes ≡ o
      → After (launch c token o g)
  unfolding launch
  launch-Inv live free none at =
      let h : Graph = reduce_outcome c.now g in
      let w : Inv h = reduce_outcome-Inv c.now v in
      if_elim After (over h) (λ e. save-Inv c w) (λ e. w)
  launch-Inv live free (some n) at =
      if_elim After (ltb g.max_attempts_per_node (length n.attempt_ids + 1))
        (λ e. save-Inv c (block_ready-Inv c v at c.now))
        (λ e. save-Inv c (open_attempt-Inv c v at token live free e))

  select-Inv : over g ≡ false → any runs g.attempts ≡ false → After (select c token g)
  unfolding select
  select-Inv live free =
      guard-Inv (not (any ready_primary g.nodes) && any ready_read g.nodes) _ _ v
        (λ e. launch-Inv live free (find ready_primary g.nodes) refl)

only_running_lem :
    (o : Option Attempt) {a : Attempt} → only_running o ≡ some a → (o ≡ some a) × (runs a ≡ true)
only_running_lem none h = cc
only_running_lem (some b) {a} h = elim (Bool-cases (runs b)) [
  | inl on ↦
      let e : b ≡ a = ground arith in (ap some e, subst (λ (x : Attempt). runs x ≡ true) e on)
  | inr off ↦ absurd (ground arith)
]

module _ (c : Call) {g : Graph} (v : Inv g) where
  pub start_next-Inv : (token : Codes) → After (start_next c token g)
  unfolding start_next
  start_next-Inv token = guard-Inv (over g) _ _ v (λ live. guard-Inv g.pause_requested _ _ v (λ e.
      guard-Inv (any runs g.attempts) _ _ v (λ free.
        if_elim After (over_budget c.now true g) (λ f. save-Inv c (exhaust_aggregate-Inv c.now v))
          (λ f.
            select-Inv c token (sync_workspace-Inv token v) (sync_workspace_live token v live)
              (subst (λ xs. any runs xs ≡ false) (sym (sync_workspace-attempts token v)) free)))))

  -- A lookup that finds a running attempt.
  pub running_attempt_lem :
      (i : Codes) {a : Attempt}
      → running_attempt g i ≡ some a
      → (find (λ x. text_eq x.id i) g.attempts ≡ some a) × (runs a ≡ true)
  unfolding running_attempt
  running_attempt_lem i {a} h = only_running_lem _ h

  -- An operation on the running attempt with an id.
  pub on_running {ℓ} :
      {A : Type ℓ} (i : Codes) (k : Attempt → Graph × Result A)
      → ((a : Attempt) → running_attempt g i ≡ some a → After (k a))
      → After (on_attempt g (running_attempt g i) k)
  on_running i k h = by_lookup (running_attempt g i) h
    where
      by_lookup :
          (o : Option Attempt)
          → ((a : Attempt) → o ≡ some a → After (k a))
          → After (on_attempt g o k)
      by_lookup none h = v
      by_lookup (some a) h = h a refl

  write_attempt-Inv :
      (i : Codes) {a : Attempt} (b : Attempt)
      → running_attempt g i ≡ some a
      → b.id ≡ a.id
      → b.node_id ≡ a.node_id
      → b.state ≡ a.state
      → Inv (write_attempt i b g)
  unfolding write_attempt
  write_attempt-Inv i {a} b at same there st =
      let (found, on) = running_attempt_lem i at in
      keep-Inv v (λ x. text_eq x.id i) b found on (rw st on) same there

  pub record_failure-Inv : (i : Codes) (f : Failure) → After (record_failure c i f g)
  unfolding record_failure
  record_failure-Inv i f =
      let f' : Failure = record f { time = if f.time == 0 then c.now else f.time } in
      on_running i _
        (λ a at. save-Inv c (write_attempt-Inv i (append_failure f' a) at refl refl refl))

  write_ahead-Inv :
      (i : Codes) (action : ToolAction) (token : Codes) (a : Attempt)
      → running_attempt g i ≡ some a
      → Inv (write_ahead c i action token g a)
  unfolding write_ahead
  write_ahead-Inv i action token a at =
      let w =
        write_attempt-Inv i (begun c action token g.mutation_generation a) at refl refl refl in
      record {
        lane = w.lane;
        distinct = w.distinct;
        bounded = w.bounded;
        quiet = w.quiet;
        paused = w.paused;
      }

  begin_action-Inv :
      (i : Codes) (action : ToolAction) (token : Codes) (a : Attempt)
      → running_attempt g i ≡ some a
      → After (begin_action c i action token g a)
  unfolding begin_action
  begin_action-Inv i action token a at = guard-Inv (is_some a.pending_action) _ _ v (λ e.
      if_elim After (action.potential_mutation && is_empty (trim_space token))
        (λ f.
          save-Inv c
            (write_attempt-Inv i (append_failure (unknown_state c action) a) at refl refl refl))
        (λ f. save-Inv c (write_ahead-Inv i action token a at)))

  pub begin_tool-Inv :
      (i : Codes) (action : ToolAction) (token : Codes) → After (begin_tool c i action token g)
  unfolding begin_tool
  begin_tool-Inv i action token = on_running i _ (begin_action-Inv i action token)

  finish_action-Inv :
      (i : Codes) (r : ToolResult) (a : Attempt)
      → running_attempt g i ≡ some a
      → Inv (finish_action c i r g a)
  unfolding finish_action
  finish_action-Inv i r a at =
      let noted = record_result-Noted c (dated c r) a.pending_action g (returned r a) in
      let h = (record_result c (dated c r) a.pending_action g (returned r a)).0 in
      let b = (record_result c (dated c r) a.pending_action g (returned r a)).1 in
      let w : Inv (write_attempt i b g) =
        write_attempt-Inv i b at noted.alike.id noted.alike.node_id noted.alike.state in
      let x : Inv (write_attempt i b h) =
        subst (λ (k : Graph). Inv (write_attempt i b k)) (sym noted.graph)
          (evidence-Inv i b h.evidence g w) in
      save-Inv c
        (if_elim Inv (adopts a.pending_action r) (λ e. token-Inv r.workspace_token x) (λ e. x))

  pub finish_tool-Inv : (i : Codes) (r : ToolResult) → After (finish_tool c i r g)
  unfolding finish_tool
  finish_tool-Inv i r = on_running i _ (finish_action-Inv i r)

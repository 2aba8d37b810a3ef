-- ===== src/GoalGraph/Lane/Noted.antt =====
-- internal/goalgraph/graph.go: that recording a result changes the evidence of the graph and the
-- record of the attempt only.
use collomia.Common.{
  ℕ, Bool, true, false, [], ◌∷◌, ◌++◌, leb, count, Option, if◌then◌else◌, ◌≡◌, refl, if_elim, ◌∙◌,
}
use collomia.Common.Text.{Codes}
use collomia.GoalGraph.Data.{Attempt, Evidence, PendingAction, Graph}
use collomia.GoalGraph.Record.{
  max_attempt_tool_evidence, prunable, stamped, prune_attempt_evidence, add_evidence,
}
use collomia.GoalGraph.Start.{Call}
use collomia.GoalGraph.Tools.{append_failure, failure_of}
use collomia.GoalGraph.Results.{
  ToolResult, progress, record_failed, record_passed, record_result, credited, renews, default_kind,
  failed_check, passed_result,
}

-- An attempt and the same one before its record grew.
pub record Alike (b a : Attempt) : Type 0 where
  pub id : b.id ≡ a.id
  pub node_id : b.node_id ≡ a.node_id
  pub state : b.state ≡ a.state

pub record Noted (g : Graph) (a : Attempt) (h : Graph) (b : Attempt) : Type 0 where
  pub graph : h ≡ record g { evidence = h.evidence }
  pub alike : Alike b a

abbrev pub NotedPair : Graph → Attempt → Graph × Attempt → Type 0
NotedPair g a r = Noted g a r.0 r.1

as_is : {a b : Attempt} → b.id ≡ a.id → b.node_id ≡ a.node_id → b.state ≡ a.state → Alike b a
as_is i n s = record { id = i; node_id = n; state = s }

if_progress : (b : Bool) {a x : Attempt} → Alike x a → Alike (if b then progress x else x) a
if_progress true k = as_is k.id k.node_id k.state
if_progress false k = k

prune-Noted : (g : Graph) (a : Attempt) → NotedPair g a (prune_attempt_evidence g a)
unfolding prune_attempt_evidence
prune-Noted g a =
    if_elim (NotedPair g a) (leb (count (prunable g) a.evidence_ids) max_attempt_tool_evidence)
      (λ e. record { graph = refl; alike = as_is refl refl refl })
      (λ e. record { graph = refl; alike = as_is refl refl refl })

pub add_evidence-Noted :
    (new_id : Codes) (now : ℕ) (e : Evidence) (g : Graph) {a b : Attempt}
    → Alike b a
    → NotedPair g a (add_evidence new_id now e g b)
unfolding add_evidence
add_evidence-Noted new_id now e g {a} {b} k =
    let g' : Graph = record g { evidence = g.evidence ++ stamped new_id now b e ∷ [] } in
    let w = prune-Noted g' (record b { evidence_ids = b.evidence_ids ++ new_id ∷ [] }) in
    record {
      graph = w.graph;
      alike = as_is (w.alike.id ∙ k.id) (w.alike.node_id ∙ k.node_id) (w.alike.state ∙ k.state);
    }

module _ (c : Call) (r : ToolResult) (pending : Option PendingAction) (g : Graph)
    (a : Attempt) where
  record_failed-Noted : NotedPair g a (record_failed c r pending g a)
  unfolding record_failed
  record_failed-Noted =
      let b : Attempt =
        append_failure
          (failure_of (default_kind r.failure_kind) r.tool r.risk r.retryable r.finished) a in
      let same : Alike b a = as_is refl refl refl in
      if_elim (NotedPair g a) r.verification
        (λ e. add_evidence-Noted c.new_id c.now (failed_check r b) g (if_progress _ same))
        (λ e. record { graph = refl; alike = if_progress _ same })

  record_passed-Noted : NotedPair g a (record_passed c r pending g a)
  unfolding record_passed
  record_passed-Noted =
      let b : Attempt = credited r a in
      let same : Alike b a = as_is refl refl refl in
      add_evidence-Noted c.new_id c.now (passed_result r b) g
        (if_progress (renews r pending g a b) same)

  pub record_result-Noted : NotedPair g a (record_result c r pending g a)
  record_result-Noted =
      if_elim (NotedPair g a) r.failed (λ e. record_failed-Noted) (λ e. record_passed-Noted)

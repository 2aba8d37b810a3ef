-- ===== src/GoalGraph/Record.antt =====
-- internal/goalgraph/graph.go: the evidence and the failures that an attempt records, and the gates
-- that they pass.
pub mod Prune
use collomia.Common.{
  ℕ, zero, suc, ◌+◌, ◌-◌, Bool, true, false, not, ◌&&◌, ◌||◌, List, [], ◌∷◌, ◌++◌, map, all, any,
  keep, count, length, is_empty, leb, ltb, ◌==◌, Option, none, some, if◌then◌else◌,
}
use collomia.Common.Text.{Codes, codes, trim_space, text_eq, rune_len, byte_len}
use collomia.GoalGraph.Data.{
  FailureKind, GapKind, EvidenceKind, EvidenceStatus, PendingAction, Failure, Attempt, Evidence,
  Graph, is_some,
}
use collomia.GoalGraph.Slots.{find}

abbrev pub max_attempt_tool_evidence : ℕ
max_attempt_tool_evidence = 40

-- The longest beginning of a text that takes at most so many bytes.
unfoldable pub take_bytes : ℕ → Codes → Codes
take_bytes limit [] = []
take_bytes limit (c ∷ s) =
    let rest = take_bytes (limit - rune_len c) s in if leb (rune_len c) limit then c ∷ rest else []

-- bounded. The mark at the end is the ellipsis.
unfoldable pub bounded : Codes → ℕ → Codes
unfolding take_bytes byte_len trim_space
bounded value limit =
    let s = trim_space value in
    if leb (byte_len s) limit then s else take_bytes limit s ++ 0x2026 ∷ []

abbrev pub bounded_summary : Codes → Codes
bounded_summary s = bounded s 16384

abbrev pub is_tool_result : EvidenceKind → Bool
is_tool_result EvidenceKind.tool_result = true
is_tool_result _ = false

abbrev pub is_verification : EvidenceKind → Bool
is_verification EvidenceKind.verification = true
is_verification _ = false

abbrev pub has_passed : EvidenceStatus → Bool
has_passed EvidenceStatus.passed = true
has_passed _ = false

abbrev pub has_failed : EvidenceStatus → Bool
has_failed EvidenceStatus.failed = true
has_failed _ = false

abbrev kind_tag : EvidenceKind → ℕ
kind_tag EvidenceKind.tool_result = 0
kind_tag EvidenceKind.verification = 1
kind_tag EvidenceKind.node_result = 2
kind_tag EvidenceKind.delegate_read = 3
kind_tag EvidenceKind.delegate_write = 4

abbrev status_tag : EvidenceStatus → ℕ
status_tag EvidenceStatus.passed = 0
status_tag EvidenceStatus.failed = 1
status_tag EvidenceStatus.accepted = 2

-- A test of the evidence with an id, which fails when there is none.
abbrev pub holds_of : (Evidence → Bool) → Option Evidence → Bool
holds_of p none = false
holds_of p (some e) = p e

unfoldable pub evidence_by : Graph → Codes → Option Evidence
unfolding find text_eq
evidence_by g i = find (λ e. text_eq e.id i) g.evidence

-- Whether a passing verification is bound to a mutation generation and a workspace.
abbrev pub verifies : ℕ → Codes → Evidence → Bool
verifies generation token e =
    is_verification e.kind
    && has_passed e.status
    && e.mutation_generation == generation
    && text_eq e.workspace_token token

unfoldable pub has_fresh_verification : Graph → Attempt → Codes → Bool
unfolding evidence_by
has_fresh_verification g a token =
    any (λ i. holds_of (verifies a.mutation_generation token) (evidence_by g i)) a.evidence_ids

unfoldable pub has_equivalent_evidence : Graph → Attempt → Evidence → Bool
unfolding evidence_by
has_equivalent_evidence g a c =
    any
      (λ i.
        holds_of
          (λ e.
            kind_tag e.kind == kind_tag c.kind
            && text_eq e.tool c.tool
            && text_eq e.command c.command
            && status_tag e.status == status_tag c.status
            && text_eq e.summary (bounded_summary c.summary)
            && text_eq e.workspace_token c.workspace_token
            && e.mutation_generation == c.mutation_generation)
          (evidence_by g i))
      a.evidence_ids

unfoldable pub has_equivalent_verification_failure : Graph → Attempt → Evidence → Bool
unfolding evidence_by
has_equivalent_verification_failure g a c =
    any
      (λ i.
        holds_of
          (λ e.
            is_verification e.kind
            && has_failed e.status
            && text_eq e.summary (bounded_summary c.summary)
            && text_eq e.workspace_token c.workspace_token
            && e.mutation_generation == c.mutation_generation)
          (evidence_by g i))
      a.evidence_ids

-- Whether an id names an ordinary tool result.
unfoldable pub prunable : Graph → Codes → Bool
unfolding evidence_by
prunable g i = holds_of (λ e. is_tool_result e.kind) (evidence_by g i)

-- The first ids that pass a test, so many at most.
unfoldable pub first_ids : (Codes → Bool) → ℕ → List Codes → List Codes
first_ids p zero ids = []
first_ids p (suc n) [] = []
first_ids p (suc n) (i ∷ ids) = if p i then i ∷ first_ids p n ids else first_ids p (suc n) ids

-- `drop[id]`
unfoldable pub has_id : List Codes → Codes → Bool
unfolding text_eq
has_id ids i = any (text_eq i) ids

unfoldable pub prune_attempt_evidence : Graph → Attempt → Graph × Attempt
unfolding prunable first_ids has_id
prune_attempt_evidence g a =
    let found = count (prunable g) a.evidence_ids in
    let drop = first_ids (prunable g) (found - max_attempt_tool_evidence) a.evidence_ids in
    if leb found max_attempt_tool_evidence then (g, a) else (
      record g { evidence = keep (λ e. not (has_id drop e.id)) g.evidence },
      record a {
        evidence_ids = keep (λ i. not (has_id drop i)) a.evidence_ids;
        evidence_pruned = a.evidence_pruned + length drop;
      },
    )

-- The evidence that addEvidenceLocked adds, under a new id.
unfoldable pub stamped : Codes → ℕ → Attempt → Evidence → Evidence
stamped new_id now a e = record e {
  id = new_id;
  attempt_id = a.id;
  node_id = a.node_id;
  finished = if e.finished == 0 then now else e.finished;
  summary = bounded_summary e.summary;
}

unfoldable pub add_evidence : Codes → ℕ → Evidence → Graph → Attempt → Graph × Attempt
unfolding stamped prune_attempt_evidence
add_evidence new_id now e g a =
    prune_attempt_evidence (record g { evidence = g.evidence ++ stamped new_id now a e ∷ [] })
      (record a { evidence_ids = a.evidence_ids ++ new_id ∷ [] })

-- Whether a success of a tool resolves a failure.
unfoldable pub resolves : Codes → Codes → Failure → Bool
unfolding text_eq
resolves tool risk f =
    not f.resolved
    && (text_eq f.tool tool || f.retryable && not (is_empty f.risk) && text_eq f.risk risk)

abbrev pub resolve : Codes → Codes → Failure → Failure
resolve tool risk f = if resolves tool risk f then record f { resolved = true } else f

abbrev pub unresolved_failures : List Failure → List Failure
unresolved_failures fs = keep (λ f. not f.resolved) fs

unfoldable pub all_retryable : List Failure → Bool
all_retryable fs = not (is_empty fs) && all (λ f. f.retryable) fs

-- The kinds that hasFailureKind is asked for.
abbrev pub is_authority : FailureKind → Bool
is_authority FailureKind.permission_denied = true
is_authority FailureKind.hook_blocked = true
is_authority FailureKind.workspace_state_unavailable = true
is_authority FailureKind.interrupted_action = true
is_authority _ = false

abbrev pub is_interrupted : FailureKind → Bool
is_interrupted FailureKind.interrupted_action = true
is_interrupted _ = false

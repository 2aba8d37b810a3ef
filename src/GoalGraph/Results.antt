-- ===== src/GoalGraph/Results.antt =====
-- internal/goalgraph/graph.go, FinishTool and RecordFailure: what is recorded once a tool call of an
-- attempt has returned.
use collomia.Common.{
  ℕ, ◌+◌, Bool, true, false, not, ◌&&◌, ◌||◌, [], map, any, is_empty, ◌==◌, Option, none, some,
  if◌then◌else◌,
}
use collomia.Common.Text.{Codes, trim_space, text_eq}
use collomia.GoalGraph.Data.{
  Attempt, FailureKind, Failure, GapKind, EvidenceKind, EvidenceStatus, Evidence, PendingAction,
  Graph, Result, ok, is_some,
}
use collomia.GoalGraph.Record.{
  add_evidence, resolves, resolve, has_equivalent_evidence, has_equivalent_verification_failure,
}
use collomia.GoalGraph.Start.{Call, save, saved}
use collomia.GoalGraph.Tools.{
  running_attempt, on_attempt, write_attempt, failure_of, append_failure,
}

pub record ToolResult : Type 0 where
  pub tool : Codes
  pub risk : Codes
  pub summary : Codes
  pub command : Codes
  pub failed : Bool
  pub failure_kind : Option FailureKind
  pub failure_detail : Codes
  pub retryable : Bool
  pub verification : Bool
  pub workspace_token : Codes
  pub started : ℕ
  pub finished : ℕ

-- A test of a pending action, which fails when there is none.
abbrev pub pending_is : (PendingAction → Bool) → Option PendingAction → Bool
pending_is p none = false
pending_is p (some act) = p act

-- completionGapWorkspaceAdvanced
unfoldable pub workspace_advanced : Option PendingAction → ToolResult → Bool
unfolding text_eq trim_space
workspace_advanced pending r =
    pending_is
      (λ act.
        act.potential_mutation
        && not (is_empty (trim_space r.workspace_token))
        && not (text_eq r.workspace_token act.base_workspace_token))
      pending

-- Whether a result may repair a gap of one kind.
abbrev pub repairs : Attempt → ToolResult → GapKind → Bool
repairs a r GapKind.no_tool_evidence = true
repairs a r GapKind.no_state_token = not (is_empty (trim_space r.workspace_token))
repairs a r GapKind.no_op_write =
    not (is_empty (trim_space r.workspace_token))
    && not (text_eq (trim_space r.workspace_token) a.base_workspace_token)
repairs a r GapKind.no_fresh_verification =
    r.verification && not (is_empty (trim_space r.workspace_token))

unfoldable pub completion_gap_advanced : Attempt → Option PendingAction → ToolResult → Bool
unfolding workspace_advanced text_eq trim_space
completion_gap_advanced a pending r =
    not (is_empty a.completion_gap_kinds)
    && (workspace_advanced pending r || any (repairs a r) a.completion_gap_kinds)

-- Whether a returned action is known to have changed nothing.
abbrev pub left_unchanged : Option PendingAction → ToolResult → Bool
left_unchanged pending r =
    pending_is
      (λ act.
        act.potential_mutation
        && not (is_empty r.workspace_token)
        && text_eq r.workspace_token act.base_workspace_token)
      pending

abbrev base_generation : Option PendingAction → ℕ → ℕ
base_generation none n = n
base_generation (some act) n = act.base_mutation_generation

-- The attempt once its action has returned.
unfoldable pub returned : ToolResult → Attempt → Attempt
unfolding text_eq
returned r a = record a {
  pending_action = none;
  mutation_generation =
      if left_unchanged a.pending_action r
      then base_generation a.pending_action a.mutation_generation
      else a.mutation_generation;
}

abbrev pub progress : Attempt → Attempt
progress a = record a {
  last_progress_iteration = a.usage.iterations;
  completion_gap_iteration =
      if is_empty a.completion_gap_kinds then a.completion_gap_iteration else a.usage.iterations;
}

abbrev pub default_kind : Option FailureKind → FailureKind
default_kind none = FailureKind.tool_failed
default_kind (some k) = k

-- The first text that is not blank.
abbrev pub first_text : Codes → Codes → Codes
first_text s t = if is_empty (trim_space s) then t else trim_space s

abbrev pub observed : EvidenceKind → EvidenceStatus → Codes → ToolResult → Attempt → Evidence
observed kind status summary r a = record {
  id = [];
  attempt_id = [];
  node_id = a.node_id;
  kind = kind;
  tool = r.tool;
  command = r.command;
  status = status;
  summary = summary;
  workspace_token = r.workspace_token;
  mutation_generation = a.mutation_generation;
  started = r.started;
  finished = r.finished;
}

abbrev pub failed_check : ToolResult → Attempt → Evidence
failed_check r a =
    let detail = first_text r.failure_detail (trim_space r.summary) in
    observed EvidenceKind.verification EvidenceStatus.failed (first_text r.summary detail) r a

-- FinishTool on a failed result, with the pending action that it had.
unfoldable pub record_failed :
    Call → ToolResult → Option PendingAction → Graph → Attempt → Graph × Attempt
unfolding workspace_advanced has_equivalent_verification_failure add_evidence trim_space
record_failed c r pending g a =
    let f = failure_of (default_kind r.failure_kind) r.tool r.risk r.retryable r.finished in
    let a = append_failure f a in
    let gap = not (is_empty a.completion_gap_kinds) in
    let moved = workspace_advanced pending r in
    let e = failed_check r a in
    let novel = not (has_equivalent_verification_failure g a e) in
    if r.verification
    then add_evidence c.new_id c.now e g (if gap && (novel || moved) then progress a else a)
    else (g, if gap && moved then progress a else a)

abbrev pub passed_result : ToolResult → Attempt → Evidence
passed_result r a =
    observed (if r.verification then EvidenceKind.verification else EvidenceKind.tool_result)
      EvidenceStatus.passed (trim_space r.summary) r a

abbrev pub credited : ToolResult → Attempt → Attempt
credited r a = record a {
  tool_successes = a.tool_successes + 1;
  failures = map (resolve r.tool r.risk) a.failures;
}

-- Whether a success counts as progress, for an attempt before and after it is credited.
unfoldable pub renews : ToolResult → Option PendingAction → Graph → Attempt → Attempt → Bool
unfolding completion_gap_advanced has_equivalent_evidence resolves trim_space
renews r pending g a b =
    any (resolves r.tool r.risk) a.failures
    || completion_gap_advanced b pending r
    || is_empty b.completion_gap_kinds && not (has_equivalent_evidence g b (passed_result r b))

unfoldable pub record_passed :
    Call → ToolResult → Option PendingAction → Graph → Attempt → Graph × Attempt
unfolding renews add_evidence resolves trim_space
record_passed c r pending g a =
    let b = credited r a in
    add_evidence c.new_id c.now (passed_result r b) g
      (if renews r pending g a b then progress b else b)

abbrev pub record_result :
    Call → ToolResult → Option PendingAction → Graph → Attempt → Graph × Attempt
record_result c r pending g a =
    if r.failed then record_failed c r pending g a else record_passed c r pending g a

-- Whether FinishTool adopts the workspace that a result reports.
abbrev pub adopts : Option PendingAction → ToolResult → Bool
adopts pending r =
    not (is_empty r.workspace_token)
    && (not (is_some pending)
        || pending_is (λ act. act.potential_mutation) pending
        || r.verification)

abbrev pub dated : Call → ToolResult → ToolResult
dated c r = record r { finished = if r.finished == 0 then c.now else r.finished }

-- The graph after FinishTool on a running attempt.
unfoldable pub finish_action : Call → Codes → ToolResult → Graph → Attempt → Graph
unfolding write_attempt returned record_failed record_passed
finish_action c i r g a =
    let (h, b) = record_result c (dated c r) a.pending_action g (returned r a) in
    let h = write_attempt i b h in
    save c
      (if adopts a.pending_action r then record h { workspace_token = r.workspace_token } else h)

unfoldable pub finish_tool : Call → Codes → ToolResult → Graph → Graph × Result (Unit {0})
unfolding running_attempt finish_action
finish_tool c i r g =
    on_attempt g (running_attempt g i) (λ a. (finish_action c i r g a, saved c (ok tt)))

unfoldable pub record_failure : Call → Codes → Failure → Graph → Graph × Result (Unit {0})
unfolding running_attempt write_attempt
record_failure c i f g =
    let f = record f { time = if f.time == 0 then c.now else f.time } in
    on_attempt g (running_attempt g i)
      (λ a. (save c (write_attempt i (append_failure f a) g), saved c (ok tt)))

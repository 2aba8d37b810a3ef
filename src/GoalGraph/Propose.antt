-- ===== src/GoalGraph/Propose.antt =====
-- internal/goalgraph/graph.go, ProposeCompletion and BlockActive: how an attempt ends. A nil node
-- behind a running attempt, which ValidateSnapshot rules out, is an error here.
use collomia.Common.{
  ℕ, ◌+◌, Bool, true, false, not, ◌&&◌, ◌||◌, List, [], ◌∷◌, any, length, is_empty, ltb, ◌==◌,
  Option, none, some, if◌then◌else◌,
}
use collomia.Common.Int.{ℤ, pos, int_eq}
use collomia.Common.Text.{Codes, trim_space, text_eq, byte_len}
use collomia.GoalGraph.Data.{
  NodeState, Node, AttemptState, Attempt, FailureKind, Failure, GapKind, EvidenceKind,
  EvidenceStatus, Evidence, Outcome, Graph, GraphError, Result, ok, err, runs, over,
}
use collomia.GoalGraph.Slots.{find, write}
use collomia.GoalGraph.Ready.{refresh_ready, reduce_outcome}
use collomia.GoalGraph.Ready.Stale.{invalidate_unconsumed_reads}
use collomia.GoalGraph.Record.{
  add_evidence, has_fresh_verification, unresolved_failures, all_retryable, is_authority,
  bounded_summary,
}
use collomia.GoalGraph.Start.{Call, save, saved, drifted}
use collomia.GoalGraph.Tools.{failure_of, append_failure, running_attempt, on_attempt}

abbrev pub max_completion_interventions : ℕ
max_completion_interventions = 2

pub data DecisionKind : Type 0 where
  continue : DecisionKind
  accepted : DecisionKind
  retry : DecisionKind
  done : DecisionKind
  blocked : DecisionKind

pub record Decision : Type 0 where
  pub kind : DecisionKind
  pub node_id : ℤ
  pub outcome : Option Outcome

abbrev pub decision_for_outcome : Option Outcome → DecisionKind
decision_for_outcome (some Outcome.done) = DecisionKind.done
decision_for_outcome _ = DecisionKind.blocked

abbrev pub decided : DecisionKind → ℤ → Option Outcome → Decision
decided kind i outcome = record { kind = kind; node_id = i; outcome = outcome }

abbrev pub with_id : ℤ → Node → Bool
with_id i n = int_eq n.id i

-- An attempt, reached by a pointer to the first that passes a test, and its node are given back.
unfoldable pub write_back : (Attempt → Bool) → Attempt → Node → Graph → Graph
unfolding write int_eq
write_back p a n g = record g {
  attempts = write p a g.attempts;
  nodes = write (with_id a.node_id) n g.nodes;
}

abbrev pub end_attempt : AttemptState → ℕ → Attempt → Attempt
end_attempt st now a = record a { state = st; finished = now }

abbrev pub release_node : NodeState → Node → Node
release_node st n = record n { state = st; active_attempt_id = [] }

unfoldable pub finish_blocked : (Attempt → Bool) → ℕ → Node → Attempt → Graph → Graph
unfolding write_back reduce_outcome
finish_blocked p now n a g =
    reduce_outcome now
      (write_back p (end_attempt AttemptState.blocked now a) (release_node NodeState.blocked n) g)

unfoldable pub reopen : ℕ → Node → Attempt → Graph → Graph
unfolding write_back refresh_ready
reopen now n a g = refresh_ready (
    write_back runs (end_attempt AttemptState.retryable now a) (release_node NodeState.retryable n)
      g)

abbrev pub block_decision : Call → Node → Attempt → Graph → Graph × Result Decision
block_decision c n a g = (
  save c (finish_blocked runs c.now n a g),
  saved c (ok (decided DecisionKind.blocked n.id (some Outcome.blocked))),
)

-- ProposeCompletion on an attempt with unresolved failures.
unfoldable pub settle_failures : Call → Node → Attempt → Graph → Graph × Result Decision
unfolding finish_blocked reopen all_retryable
settle_failures c n a g =
    let open_failures = unresolved_failures a.failures in
    if any (λ f. is_authority f.kind) open_failures
    then block_decision c n a g
    else if all_retryable open_failures && ltb (length n.attempt_ids) g.max_attempts_per_node
    then (save c (reopen c.now n a g), saved c (ok (decided DecisionKind.retry n.id none)))
    else block_decision c n a g

-- The gap that a possible mutation leaves, if any.
unfoldable pub mutation_gaps : Graph → Attempt → Codes → List GapKind
unfolding has_fresh_verification text_eq
mutation_gaps g a token =
    if not a.may_have_mutated
    then []
    else if is_empty token
    then GapKind.no_state_token ∷ []
    else if a.has_workspace_write && text_eq a.base_workspace_token token
    then GapKind.no_op_write ∷ []
    else if not (has_fresh_verification g a token)
    then GapKind.no_fresh_verification ∷ []
    else []

unfoldable pub completion_gaps : Graph → Attempt → Codes → List GapKind
unfolding mutation_gaps
completion_gaps g a token =
    if a.tool_successes == 0
    then GapKind.no_tool_evidence ∷ mutation_gaps g a token
    else mutation_gaps g a token

abbrev gap_tag : GapKind → ℕ
gap_tag GapKind.no_tool_evidence = 0
gap_tag GapKind.no_state_token = 1
gap_tag GapKind.no_op_write = 2
gap_tag GapKind.no_fresh_verification = 3

unfoldable pub equal_gap_kinds : List GapKind → List GapKind → Bool
equal_gap_kinds [] [] = true
equal_gap_kinds (k ∷ ks) (l ∷ ls) = gap_tag k == gap_tag l && equal_gap_kinds ks ls
equal_gap_kinds _ _ = false

-- The attempt once the controller has intervened.
unfoldable pub deferred : List GapKind → Attempt → Attempt
unfolding equal_gap_kinds
deferred gaps a =
    let same = equal_gap_kinds a.completion_gap_kinds gaps in
    record a {
      completion_gap_kinds = if same then a.completion_gap_kinds else gaps;
      completion_gap_iteration = if same then a.completion_gap_iteration else a.usage.iterations;
      completion_interventions = a.completion_interventions + 1;
    }

unfoldable pub defer_completion :
    Call → List GapKind → Node → Attempt → Graph → Graph × Result Decision
unfolding deferred finish_blocked write
defer_completion c gaps n a g =
    if ltb max_completion_interventions (deferred gaps a).completion_interventions
    then block_decision c n (deferred gaps a) g
    else (
      save c (record g { attempts = write runs (deferred gaps a) g.attempts }),
      saved c (ok (decided DecisionKind.continue n.id none)),
    )

abbrev pub node_result : ℕ → Codes → Codes → Attempt → Evidence
node_result now summary token a = record {
  id = [];
  attempt_id = [];
  node_id = a.node_id;
  kind = EvidenceKind.node_result;
  tool = [];
  command = [];
  status = EvidenceStatus.accepted;
  summary = bounded_summary summary;
  workspace_token = token;
  mutation_generation = a.mutation_generation;
  started = 0;
  finished = now;
}

abbrev pub accept_attempt : ℕ → Attempt → Attempt
accept_attempt now a = record a {
  completion_gap_kinds = [];
  completion_gap_iteration = 0;
  state = AttemptState.accepted;
  finished = now;
}

abbrev pub accept_node : Codes → Node → Node
accept_node i n = record n {
  state = NodeState.done;
  active_attempt_id = [];
  accepted_attempt_id = i;
}

-- The graph with the accepted attempt and its evidence.
unfoldable pub record_accepted : Call → Codes → Codes → Node → Attempt → Graph → Graph
unfolding add_evidence write_back
record_accepted c summary token n a g =
    let (h, b) =
      add_evidence c.new_id c.now (node_result c.now summary token a) g (accept_attempt c.now a) in
    write_back runs b (accept_node a.id n) h

-- The graph once a completion is accepted, before the nodes are read again.
unfoldable pub accept : Call → Codes → Codes → Node → Attempt → Graph → Graph
unfolding record_accepted invalidate_unconsumed_reads
accept c summary token n a g =
    let h = record (record_accepted c summary token n a g) {
      workspace_token = if is_empty token then g.workspace_token else token;
    } in
    if a.may_have_mutated then invalidate_unconsumed_reads n.id h else h

abbrev pub accept_kind : Option Outcome → DecisionKind
accept_kind (some Outcome.done) = DecisionKind.done
accept_kind _ = DecisionKind.accepted

abbrev pub accept_outcome : Option Outcome → Option Outcome
accept_outcome (some Outcome.done) = some Outcome.done
accept_outcome _ = none

unfoldable pub accept_completion :
    Call → Codes → Codes → Node → Attempt → Graph → Graph × Result Decision
unfolding accept refresh_ready reduce_outcome
accept_completion c summary token n a g =
    let h = reduce_outcome c.now (refresh_ready (accept c summary token n a g)) in
    (save c h, saved c (ok (decided (accept_kind h.outcome) n.id (accept_outcome h.outcome))))

abbrev pub stale_failure : Call → Failure
stale_failure c = failure_of FailureKind.workspace_stale [] [] true c.now

-- The running attempt, with the failure that a changed workspace adds.
abbrev pub checked : Call → Codes → Graph → Attempt → Attempt
checked c token g a = if drifted g token then append_failure (stale_failure c) a else a

-- ProposeCompletion on the running attempt and its node.
unfoldable pub judge : Call → Codes → Codes → Node → Attempt → Graph → Graph × Result Decision
unfolding settle_failures completion_gaps defer_completion accept_completion
judge c summary token n a g =
    let a = checked c token g a in
    if not (is_empty (unresolved_failures a.failures))
    then settle_failures c n a g
    else if not (is_empty (completion_gaps g a token))
    then defer_completion c (completion_gaps g a token) n a g
    else accept_completion c summary token n a g

abbrev pub on_node {ℓ} :
    {A : Type ℓ} → Graph → Option Node → (Node → Graph × Result A) → Graph × Result A
on_node g none k = (g, err GraphError.unknown_node)
on_node g (some n) k = k n

abbrev pub node_by : Graph → ℤ → Option Node
node_by g i = find (with_id i) g.nodes

unfoldable pub propose_completion : Call → Codes → Codes → Graph → Graph × Result Decision
unfolding judge find int_eq
propose_completion c summary token g =
    if over g
    then (g, ok (decided (decision_for_outcome g.outcome) (pos 0) g.outcome))
    else on_attempt g (find runs g.attempts)
        (λ a. on_node g (node_by g a.node_id) (λ n. judge c summary token n a g))

-- BlockActive on a running attempt and its node.
unfoldable pub block_attempt :
    Call → Codes → Codes → Graph → Attempt → Node → Graph × Result (Unit {0})
unfolding finish_blocked trim_space byte_len text_eq
block_attempt c i reason g a n =
    if is_empty (trim_space reason) || ltb 4096 (byte_len (trim_space reason))
    then (g, err GraphError.bad_reason)
    else (save c (finish_blocked (λ x. text_eq x.id i) c.now n a g), saved c (ok tt))

unfoldable pub block_active : Call → Codes → Codes → Graph → Graph × Result (Unit {0})
unfolding running_attempt block_attempt find int_eq
block_active c i reason g =
    on_attempt g (running_attempt g i)
      (λ a. on_node g (node_by g a.node_id) (block_attempt c i reason g a))

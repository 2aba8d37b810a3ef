-- ===== src/GoalGraph/Data.antt =====
-- internal/goalgraph/graph.go: the durable record of an Orchestrated Goal. A time is the ℕ of
-- nanoseconds since Go's zero time, which is 0; a count that Go keeps as an int and never lets fall
-- below 0 is a ℕ; a cost is an exact amount in a unit of its own. An empty Go string is the empty
-- text, and a nil pointer or an outcome not yet set is `none`.
use collomia.Common.{ℕ, Bool, true, false, Option, none, some, List}
use collomia.Common.Int.{ℤ}
use collomia.Common.Text.{Codes}

pub data Execution : Type 0 where
  primary : Execution
  read_only : Execution
  isolated_write : Execution

pub data NodeState : Type 0 where
  proposed : NodeState
  ready : NodeState
  running : NodeState
  retryable : NodeState
  stale : NodeState
  blocked : NodeState
  awaiting_review : NodeState
  integrated : NodeState
  cancelled : NodeState
  budget_exhausted : NodeState
  done : NodeState

pub data AttemptState : Type 0 where
  running : AttemptState
  retryable : AttemptState
  failed : AttemptState
  blocked : AttemptState
  cancelled : AttemptState
  budget_exhausted : AttemptState
  accepted : AttemptState
  candidate : AttemptState
  interrupted : AttemptState

pub data Outcome : Type 0 where
  done : Outcome
  blocked : Outcome
  cancelled : Outcome
  budget_exhausted : Outcome
  awaiting_review : Outcome
  awaiting_verification : Outcome

pub data FailureKind : Type 0 where
  tool_failed : FailureKind
  permission_denied : FailureKind
  hook_blocked : FailureKind
  verification_failed : FailureKind
  provider_failed : FailureKind
  workspace_stale : FailureKind
  workspace_state_unavailable : FailureKind
  persistence_failed : FailureKind
  interrupted_action : FailureKind

pub data GapKind : Type 0 where
  no_tool_evidence : GapKind
  no_state_token : GapKind
  no_op_write : GapKind
  no_fresh_verification : GapKind

pub data EvidenceKind : Type 0 where
  tool_result : EvidenceKind
  verification : EvidenceKind
  node_result : EvidenceKind
  delegate_read : EvidenceKind
  delegate_write : EvidenceKind

pub data EvidenceStatus : Type 0 where
  passed : EvidenceStatus
  failed : EvidenceStatus
  accepted : EvidenceStatus

pub record Node : Type 0 where
  pub id : ℤ
  pub position : ℕ
  pub title : Codes
  pub depends_on : List ℤ
  pub acceptance : List Codes
  pub execution : Execution
  pub write_paths : List Codes
  pub state : NodeState
  pub active_attempt_id : Codes
  pub accepted_attempt_id : Codes
  pub attempt_ids : List Codes

pub record PendingAction : Type 0 where
  pub id : Codes
  pub tool : Codes
  pub risk : Codes
  pub summary : Codes
  pub command : Codes
  pub potential_mutation : Bool
  pub non_replayable : Bool
  pub base_workspace_token : Codes
  pub base_mutation_generation : ℕ
  pub started : ℕ

pub record Failure : Type 0 where
  pub kind : FailureKind
  pub tool : Codes
  pub risk : Codes
  pub retryable : Bool
  pub resolved : Bool
  pub time : ℕ

pub record WorkUsage : Type 0 where
  pub iterations : ℕ
  pub input_tokens : ℕ
  pub cached_tokens : ℕ
  pub output_tokens : ℕ
  pub cost : ℕ
  pub cost_available : Bool
  pub cost_estimated : Bool

-- The seven usage fields of an attempt are one record here.
pub record Attempt : Type 0 where
  pub id : Codes
  pub node_id : ℤ
  pub number : ℕ
  pub state : AttemptState
  pub graph_generation : ℕ
  pub base_workspace_token : Codes
  pub mutation_generation : ℕ
  pub may_have_mutated : Bool
  pub has_workspace_write : Bool
  pub may_have_external_effects : Bool
  pub completion_interventions : ℕ
  pub completion_gap_kinds : List GapKind
  pub completion_gap_iteration : ℕ
  pub tool_successes : ℕ
  pub evidence_pruned : ℕ
  pub pending_action : Option PendingAction
  pub failures : List Failure
  pub evidence_ids : List Codes
  pub usage : WorkUsage
  pub last_progress_iteration : ℕ
  pub started : ℕ
  pub finished : ℕ

pub record Evidence : Type 0 where
  pub id : Codes
  pub attempt_id : Codes
  pub node_id : ℤ
  pub kind : EvidenceKind
  pub tool : Codes
  pub command : Codes
  pub status : EvidenceStatus
  pub summary : Codes
  pub workspace_token : Codes
  pub mutation_generation : ℕ
  pub started : ℕ
  pub finished : ℕ

pub record Accounting : Type 0 where
  pub started : ℕ
  pub primary : WorkUsage
  pub automatic_reads : WorkUsage
  pub automatic_writers : WorkUsage
  pub active_elapsed : ℕ
  pub active_since : ℕ

-- The limits of AggregateBudget, each `Max…` field by its name without the prefix.
pub record AggregateBudget : Type 0 where
  pub iterations : ℕ
  pub tokens : ℕ
  pub cost : ℕ
  pub active_wall_seconds : ℕ

-- The fields of Snapshot and of Graph that the modelled operations read or change.
pub record Graph : Type 0 where
  pub generation : ℕ
  pub nodes : List Node
  pub attempts : List Attempt
  pub evidence : List Evidence
  pub mutation_generation : ℕ
  pub workspace_token : Codes
  pub max_attempts_per_node : ℕ
  pub accounting : Accounting
  pub aggregate_budget : AggregateBudget
  pub pause_requested : Bool
  pub pause_reached : Bool
  pub outcome : Option Outcome
  pub updated : ℕ

-- Why an operation is refused.
pub data GraphError : Type 0 where
  no_ready_node : GraphError
  read_fanout_ready : GraphError
  terminal : GraphError
  workspace_state : GraphError
  paused : GraphError
  unsafe_retry : GraphError
  aggregate_budget : GraphError
  persistence : GraphError
  already_running : GraphError
  not_running : GraphError
  unknown_node : GraphError
  action_pending : GraphError
  invalid_usage : GraphError
  wrong_lane : GraphError
  bad_reason : GraphError
  not_paused : GraphError
  not_blocked : GraphError
  awaiting_review : GraphError
  attempts_exhausted : GraphError
  nothing_to_retry : GraphError

pub data Result {ℓ} (A : Type ℓ) : Type ℓ where
  ok : A → Result A
  err : GraphError → Result A

-- Go's `==` on the states that the code compares with.
abbrev pub is_proposed : NodeState → Bool
is_proposed NodeState.proposed = true
is_proposed _ = false

abbrev pub is_ready : NodeState → Bool
is_ready NodeState.ready = true
is_ready _ = false

abbrev pub is_running : NodeState → Bool
is_running NodeState.running = true
is_running _ = false

abbrev pub is_blocked : NodeState → Bool
is_blocked NodeState.blocked = true
is_blocked _ = false

abbrev pub is_exhausted : NodeState → Bool
is_exhausted NodeState.budget_exhausted = true
is_exhausted _ = false

abbrev pub is_in_review : NodeState → Bool
is_in_review NodeState.awaiting_review = true
is_in_review _ = false

abbrev pub is_integrated : NodeState → Bool
is_integrated NodeState.integrated = true
is_integrated _ = false

abbrev pub is_done : NodeState → Bool
is_done NodeState.done = true
is_done _ = false

-- Proposed, retryable or stale.
abbrev pub is_waiting : NodeState → Bool
is_waiting NodeState.proposed = true
is_waiting NodeState.retryable = true
is_waiting NodeState.stale = true
is_waiting _ = false

abbrev pub is_primary : Execution → Bool
is_primary Execution.primary = true
is_primary _ = false

abbrev pub is_read_only : Execution → Bool
is_read_only Execution.read_only = true
is_read_only _ = false

abbrev pub is_isolated : Execution → Bool
is_isolated Execution.isolated_write = true
is_isolated _ = false

-- Whether an attempt runs.
abbrev pub attempt_running : AttemptState → Bool
attempt_running AttemptState.running = true
attempt_running _ = false

abbrev pub runs : Attempt → Bool
runs a = attempt_running a.state

-- Whether a node runs.
abbrev pub active : Node → Bool
active n = is_running n.state

-- `g.state.Outcome != ""`
abbrev pub is_some {ℓ} : {A : Type ℓ} → Option A → Bool
is_some none = false
is_some (some a) = true

abbrev pub over : Graph → Bool
over g = is_some g.outcome

-- ===== src/GoalGraph/Tools.antt =====
-- internal/goalgraph/graph.go, BeginTool: what is recorded before a tool call of an attempt acts.
use collomia.Common.{
  ℕ, ◌+◌, Bool, false, ◌&&◌, ◌||◌, [], ◌∷◌, ◌++◌, is_empty, Option, none, some, if◌then◌else◌,
}
use collomia.Common.Text.{Codes, codes, trim_space, text_eq}
use collomia.GoalGraph.Data.{
  Attempt, FailureKind, Failure, Graph, GraphError, Result, ok, err, is_some, runs,
}
use collomia.GoalGraph.Slots.{find, write}
use collomia.GoalGraph.Start.{Call, save, saved}

pub record ToolAction : Type 0 where
  pub tool : Codes
  pub risk : Codes
  pub summary : Codes
  pub command : Codes
  pub potential_mutation : Bool
  pub non_replayable : Bool

abbrev pub only_running : Option Attempt → Option Attempt
only_running none = none
only_running (some a) = if runs a then some a else none

-- The attempt with an id, unless it is missing or does not run.
unfoldable pub running_attempt : Graph → Codes → Option Attempt
unfolding find text_eq
running_attempt g i = only_running (find (λ a. text_eq a.id i) g.attempts)

abbrev pub on_attempt {ℓ} :
    {A : Type ℓ} → Graph → Option Attempt → (Attempt → Graph × Result A) → Graph × Result A
on_attempt g none k = (g, err GraphError.not_running)
on_attempt g (some a) k = k a

-- A write through the pointer that a lookup by id returned.
unfoldable pub write_attempt : Codes → Attempt → Graph → Graph
unfolding write text_eq
write_attempt i a g = record g { attempts = write (λ x. text_eq x.id i) a g.attempts }

abbrev pub failure_of : FailureKind → Codes → Codes → Bool → ℕ → Failure
failure_of kind tool risk retryable time = record {
  kind = kind;
  tool = tool;
  risk = risk;
  retryable = retryable;
  resolved = false;
  time = time;
}

-- The attempt and the mutation generation once a write-ahead action is recorded.
abbrev pub begun : Call → ToolAction → Codes → ℕ → Attempt → Attempt
begun c action token generation a = record a {
  pending_action = some (record {
    id = c.new_id;
    tool = action.tool;
    risk = action.risk;
    summary = trim_space action.summary;
    command = action.command;
    potential_mutation = action.potential_mutation;
    non_replayable = action.non_replayable;
    base_workspace_token = trim_space token;
    base_mutation_generation = a.mutation_generation;
    started = c.now;
  });
  mutation_generation = if action.potential_mutation then generation + 1 else a.mutation_generation;
  may_have_mutated = a.may_have_mutated || action.potential_mutation;
  has_workspace_write = a.has_workspace_write || text_eq action.risk (codes "write");
  may_have_external_effects = a.may_have_external_effects || action.non_replayable;
}

abbrev pub append_failure : Failure → Attempt → Attempt
append_failure f a = record a { failures = a.failures ++ f ∷ [] }

abbrev pub unknown_state : Call → ToolAction → Failure
unknown_state c action =
    failure_of FailureKind.workspace_state_unavailable action.tool action.risk false c.now

unfoldable pub write_ahead : Call → Codes → ToolAction → Codes → Graph → Attempt → Graph
unfolding write_attempt
write_ahead c i action token g a =
    let h = write_attempt i (begun c action token g.mutation_generation a) g in
    record h {
      mutation_generation =
          if action.potential_mutation then g.mutation_generation + 1 else g.mutation_generation;
    }

-- BeginTool on a running attempt.
unfoldable pub begin_action :
    Call → Codes → ToolAction → Codes → Graph → Attempt → Graph × Result (Unit {0})
unfolding write_attempt write_ahead trim_space
begin_action c i action token g a =
    if is_some a.pending_action
    then (g, err GraphError.action_pending)
    else if action.potential_mutation && is_empty (trim_space token)
    then (
      save c (write_attempt i (append_failure (unknown_state c action) a) g),
      saved c (err GraphError.workspace_state),
    )
    else (save c (write_ahead c i action token g a), saved c (ok tt))

unfoldable pub begin_tool : Call → Codes → ToolAction → Codes → Graph → Graph × Result (Unit {0})
unfolding running_attempt begin_action
begin_tool c i action token g = on_attempt g (running_attempt g i) (begin_action c i action token g)

-- ===== src/GoalGraph/Reach.antt =====
-- internal/goalgraph/graph.go: the graphs that a sequence of operations of the primary lane reaches
-- from a new one.
pub mod Invariant
pub mod Terminal
use collomia.Common.{ℕ, List, [], ◌∷◌}
use collomia.Common.Int.{ℤ}
use collomia.Common.Text.{Codes}
use collomia.GoalGraph.Data.{Failure, WorkUsage, Graph}
use collomia.GoalGraph.Start.{Call, start_next}
use collomia.GoalGraph.Tools.{ToolAction, begin_tool}
use collomia.GoalGraph.Results.{ToolResult, finish_tool, record_failure}
use collomia.GoalGraph.Propose.{propose_completion, block_active}
use collomia.GoalGraph.Operator.{
  record_primary_usage, exhaust_budget, enforce_aggregate_budget, activate, request_pause,
  reach_pause, resume, retry_node, cancel,
}
use collomia.GoalGraph.Recover.{recover}
use collomia.GoalGraph.Lane.Invariant.{Inv, After}
use collomia.GoalGraph.Lane.Work.{
  start_next-Inv, begin_tool-Inv, finish_tool-Inv, record_failure-Inv,
}
use collomia.GoalGraph.Lane.Judge.{propose_completion-Inv, block_active-Inv}
use collomia.GoalGraph.Lane.Control.{
  record_primary_usage-Inv, exhaust_budget-Inv, enforce_aggregate_budget-Inv, activate-Inv,
  request_pause-Inv, reach_pause-Inv, resume-Inv, retry_node-Inv, cancel-Inv, recover-Inv,
}

-- A call of one of the graph's methods, with its arguments.
pub data Op : Type 0 where
  starts : Codes → Op
  begins : Codes → ToolAction → Codes → Op
  finishes : Codes → ToolResult → Op
  fails : Codes → Failure → Op
  proposes : Codes → Codes → Op
  blocks : Codes → Codes → Op
  charges : WorkUsage → Op
  exhausts : Op
  enforces : Op
  activates : Op
  requests_pause : Op
  reaches_pause : Op
  resumes : Op
  retries : ℤ → Op
  cancels : Op
  recovers : Codes → Op

-- The graph after a call, whatever the result is.
unfoldable pub step : Call → Op → Graph → Graph
unfolding start_next begin_tool finish_tool record_failure propose_completion block_active
    record_primary_usage exhaust_budget enforce_aggregate_budget activate request_pause reach_pause
    resume retry_node cancel recover
step c (starts token) g = (start_next c token g).0
step c (begins i action token) g = (begin_tool c i action token g).0
step c (finishes i r) g = (finish_tool c i r g).0
step c (fails i f) g = (record_failure c i f g).0
step c (proposes summary token) g = (propose_completion c summary token g).0
step c (blocks i reason) g = (block_active c i reason g).0
step c (charges u) g = (record_primary_usage c u g).0
step c exhausts g = (exhaust_budget c g).0
step c enforces g = (enforce_aggregate_budget c g).0
step c activates g = (activate c g).0
step c requests_pause g = (request_pause c g).0
step c reaches_pause g = (reach_pause c g).0
step c resumes g = (resume c g).0
step c (retries i) g = (retry_node c i g).0
step c cancels g = (cancel c g).0
step c (recovers token) g = (recover c token g).0

unfoldable pub run : List (Call × Op) → Graph → Graph
unfolding step
run [] g = g
run (x ∷ xs) g = run xs (step x.0 x.1 g)

pub step-Inv : (c : Call) (o : Op) {g : Graph} → Inv g → Inv (step c o g)
unfolding step
step-Inv c (starts token) v = start_next-Inv c v token
step-Inv c (begins i action token) v = begin_tool-Inv c v i action token
step-Inv c (finishes i r) v = finish_tool-Inv c v i r
step-Inv c (fails i f) v = record_failure-Inv c v i f
step-Inv c (proposes summary token) v = propose_completion-Inv c v summary token
step-Inv c (blocks i reason) v = block_active-Inv c v i reason
step-Inv c (charges u) v = record_primary_usage-Inv c v u
step-Inv c exhausts v = exhaust_budget-Inv c v
step-Inv c enforces v = enforce_aggregate_budget-Inv c v
step-Inv c activates v = activate-Inv c v
step-Inv c requests_pause v = request_pause-Inv c v
step-Inv c reaches_pause v = reach_pause-Inv c v
step-Inv c resumes v = resume-Inv c v
step-Inv c (retries i) v = retry_node-Inv c v i
step-Inv c cancels v = cancel-Inv c v
step-Inv c (recovers token) v = recover-Inv c v token

-- Every operation keeps what holds of a graph between two operations, so every sequence does.
pub run-Inv : (xs : List (Call × Op)) {g : Graph} → Inv g → Inv (run xs g)
unfolding run
run-Inv [] v = v
run-Inv (x ∷ xs) v = run-Inv xs (step-Inv x.0 x.1 v)

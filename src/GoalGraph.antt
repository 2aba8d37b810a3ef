-- ===== src/GoalGraph.antt =====
-- internal/goalgraph/graph.go: the controller of an Orchestrated Goal.
pub mod Data
pub mod Slots
pub mod Budget
pub mod Ready
pub mod Record
pub mod Start
pub mod Tools
pub mod Results
pub mod Propose
pub mod Operator
pub mod Recover
pub mod Swept
pub mod Lane
pub mod Reach
pub mod Spec
pub mod New
pub mod Gate
pub mod Replay
pub mod Accounts
mod Tests

-- ===== src/GoalGraph/Lane.antt =====
-- internal/goalgraph/graph.go: that one primary attempt runs at a time, and what holds of a graph
-- between two operations.
pub mod Same
pub mod Invariant
pub mod Nodes
pub mod Ends
pub mod Writes
pub mod Opening
pub mod Sweep
pub mod Noted
pub mod Work
pub mod Judge
pub mod Control

-- ===== src/DiffModel.antt =====
-- internal/diffmodel: the tracker of the agent's file changes, its checkpoints, undo and restore.
pub mod Data
pub mod Checkpoint
pub mod Plan
pub mod Restore
pub mod Undo
mod Tests
pub mod Lines

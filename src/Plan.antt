-- ===== src/Plan.antt =====
-- internal/plan: the structured plan of a session. Data holds its types, Cycle the search for a
-- cycle among the dependencies, Validate the contract of a plan, Completion the assessment and
-- Board the shared holder.
pub mod Data
pub mod Cycle
pub mod Acyclic
pub mod Validate
pub mod Completion
pub mod Merge
pub mod Board
mod Tests

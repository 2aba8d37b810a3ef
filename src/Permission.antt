-- ===== src/Permission.antt =====
-- internal/permission/permission.go, with the Action of internal/tools/tools.go.
-- Texts that only inform a reader (summaries, the wording of reasons and rules) are kept as
-- structured values. `classify` (internal/secrets/secrets.go) is a parameter: the label of a
-- well-known credential store, or "".
pub mod Defs
pub mod Decide
pub mod Session
pub mod Authorize
pub mod Reachable
mod Samples
mod Tests

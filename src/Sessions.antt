-- ===== src/Sessions.antt =====
-- src/core/session-workspace.js: the workspace of sessions.
pub mod State
pub mod Fields
pub mod Normalize
pub mod Files
pub mod Actions
mod Tests

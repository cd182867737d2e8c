-- ===== src/Memory.antt =====
-- src/core/memory-candidate-review-queue.js: the review queue of memory candidates, from a candidate
-- to a reversible apply and its rollback.
pub mod Words
pub mod Record
pub mod Candidate
pub mod Replay
pub mod Request
pub mod Bridge
pub mod Readback
pub mod Checks
pub mod Apply
pub mod Lifecycle
pub mod Queue
mod Tests

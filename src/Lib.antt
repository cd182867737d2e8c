-- ===== src/Lib.antt =====
-- GPAO-T, a local agent runtime: its sessions, its approval ledgers and its reviewed memory.
--
-- The program keeps its state in files under a runtime root. A user works in sessions, which
-- src/core/session-workspace.js keeps in one JSON file. What the program learns becomes a memory
-- candidate in the review queue of src/core/memory-candidate-review-queue.js: a candidate is replayed,
-- requested, approved by the user, applied as one cell of the Context Mesh, reviewed again after an
-- independent replay, and can be rolled back. An approval is written as two records, to the approval and
-- the audit ledger of src/core/approval-audit-records.js, and an apply reads them back. A cell carries
-- the uses that its authority allows: src/core/context-admission-policy.js
-- classifies them for a request, and src/core/admission.js admits the cells of a turn. A turn,
-- src/core/turn-kernel.js, retrieves cells, takes up what the session before spoke of, admits, asks the
-- authority for the approvals that it needs, and chooses a model and tools.
--
-- Sessions: src/core/session-workspace.js.
--   Sessions/State: the stored objects. Sessions/Fields: the `normalize…` helpers of their parts.
--   Sessions/Normalize: `sessionRecord`, `normalizeSessionWorkspaceState`, `ensureOneActiveSession`.
--   Sessions/Files: `readSessionWorkspaceState`, `writeSessionWorkspaceState`, `writeAndAudit`, with
--   `appendAuditEvent` of src/core/storage.js. Sessions/Actions: `applySessionWorkspaceAction`.
--   The workspace file is an optional `Workspace`, the audit trail a list.
-- Ledger: src/core/approval-audit-records.js. A JSONL file is the list of its records, the oldest first.
-- Cell: the T-cell object that the other parts share.
-- Memory: src/core/memory-candidate-review-queue.js, with the candidate file of src/core/memory-wiki.js.
--   Memory/Record: the objects, and the store of queue, cells and ledgers. Memory/Candidate, Memory/Replay,
--   Memory/Request, Memory/Bridge, Memory/Apply: the `build…` functions. Memory/Readback:
--   `validateApprovalLedgerReceipt`. Memory/Checks: `validateReversibleApply`. Memory/Lifecycle:
--   `reviewAppliedCandidateLifecycle`. Memory/Queue: the operations that write. Memory/Words: the
--   functions on text.
-- Policy: src/core/context-admission-policy.js. What a request is about, and for what a cell may be used in
--   its turn; the results of the regular expressions on the text are arguments.
-- Admission: src/core/admission.js. The score of a cell, its role in the turn, the packet of a turn.
-- Authority: src/core/authority.js, the approvals that a turn needs.
-- Adapters: src/core/adapter-boundary.js, with `routeModel` of src/core/model-router.js and `buildToolPlan` of
--   src/core/tool-runtime.js. Which model and which tools a turn may use.
-- Wiki: src/core/memory-wiki.js, `captureMemoryEntry`, with its two files as optional values. Wiki/Scoring:
--   `resolveContextMesh`; Wiki/Rating: its scores.
-- Continuity: src/core/session-continuity.js, the ledger of referents. Continuity/Handing: the handoff, which
--   takes up one of them.
-- Turn: src/core/turn-kernel.js, src/core/session-overlay.js and src/core/context-runtime.js. `run_turn` composes
--   the policy, the continuity, the retrieval, the admission, the authority and the adapters.
-- Execution: src/core/execution-runtime.js. The dry run of a listed command, with its effects as a list.
-- Growth: src/core/growth-proposals.js, src/core/growth-application-gates.js and src/core/replay-history.js. Three
--   files as lists; Growth/Evidence: what the history holds of a target; Growth/Gating: what a stored
--   proposal and a gate have of it; Growth/Steps: the operations as steps.
-- Updates: src/core/update-boundary.js. Updates/Version: date versions. Updates/Reading: the feed, the
--   decision, the status.
-- Storage: `readJsonlTail` and `readTextTail` of src/core/storage.js, on the bytes of a file.
-- Prelude: tests, lists, sorting, text, thrown errors, and validations as lists of tests with their findings.
--
-- Each module has its properties in modules below it, and Tests beside it runs them at concrete values.
--
-- A text that is absent where the code only tests for its being there is the empty text, and `null` is
-- `none` where the code tells them apart. Scores and weights are counted in thousandths, and their sums are
-- exact. A stored object has the fields that the code itself writes; a file with fields of other types is
-- not modelled, nor, except in Storage, is a file that is no JSON, which makes the code throw. Each loop of
-- the code runs through a list or a text, so that no fuel is needed. A write is one step: two processes on
-- one root are not modelled.
--
-- Arguments of the model, in the records named Env and Patterns or beside the definitions: the clock and
-- its texts, the engine's `toLowerCase`, the rounding of `toFixed` and of a number's text to a double, `new
-- URL`, `JSON.parse` of a line, `deriveSessionTitleFromRequest`, and regular expressions other than lists of
-- texts. Constant descriptive fields of the answers and texts for the user are left out, as is the routing
-- of skills in a turn, which is not read by its other parts.
-- Not modelled: the HTML surfaces and their contracts (control-center, core-work-surface), the services
-- and their settings (gateway, models), the owner operations, skills, multi-chat reports, the
-- installer and the command line. They show, package or call what is modelled here, or are a product of
-- their own.
mod Prelude
pub mod Sessions
pub mod Ledger
pub mod Cell
pub mod Memory
pub mod Policy
pub mod Admission
pub mod Authority
pub mod Adapters
pub mod Wiki
pub mod Continuity
pub mod Turn
pub mod Execution
pub mod Growth
pub mod Updates
pub mod Storage

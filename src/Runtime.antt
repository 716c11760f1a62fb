-- ===== src/Runtime.antt =====
-- The worker that takes a run through its model and tool calls (internal/runtime/worker.go).
pub mod Store
pub mod Aliases
pub mod Calls
pub mod Keeps
pub mod Yields
pub mod Limits
pub mod Once
pub mod Loop
pub mod Finish
pub mod Run
mod Tests

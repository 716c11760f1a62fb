-- ===== src/Workflow.antt =====
-- The workflow engine (internal/workflow/executor.go).
pub mod Graph
mod Unseen
pub mod Cycle
pub mod Reach
pub mod Terminal
pub mod Validate
pub mod Conditions
pub mod Store
pub mod Queue
pub mod Activity
pub mod Execute
pub mod Rounds
pub mod Entry
mod Tests

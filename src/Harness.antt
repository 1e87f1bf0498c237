-- ===== src/Harness.antt =====
-- src/harness: the agent harness. The modules below are its parts.
pub mod Context
pub mod Store
pub mod Runner
pub mod Calls
pub mod Loop
pub mod Control
pub mod Workflow
mod Tests

-- ===== src/Subagents.antt =====
-- core/subagents: delegations, their results, and the record of what they did.
pub mod Contract
pub mod Lifecycle
pub mod Capacity
pub mod Citations
pub mod Ledger
pub mod Report
pub mod Registry
pub mod FindingFields
pub mod Executor
pub mod TokenCollector
pub mod Delegation
pub mod TaskTool
pub mod Steps
mod Tests
mod TaskTests

-- ===== src/Security.antt =====
-- core/tools/security: what the agents report.
pub mod Finding
pub mod Collect
pub mod Blame
pub mod Report
pub mod HubTools
mod Tests

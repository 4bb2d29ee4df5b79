-- ===== src/Hub.antt =====
-- infra/db/hub_store.py: the operations of a runner on the tables of the hub. One call is one
-- transaction. The columns that only hold a time are left out, but for whether it is set.
pub mod Instances
pub mod Journal
pub mod Activity
pub mod Findings
mod Tests

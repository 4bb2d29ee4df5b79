-- ===== src/Runner.antt =====
-- core/runner: the turns of an instance.
pub mod Content
pub mod History
mod Tests
pub mod Slots
pub mod Event
pub mod Turn
pub mod Wire
pub mod WorkLog
pub mod Collector
pub mod Stream
pub mod Terminal
pub mod Prompt
pub mod Feed
pub mod Follow
pub mod Chat

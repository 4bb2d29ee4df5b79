-- ===== src/Middleware.antt =====
-- core/middleware: what the lead's middleware does to the conversation after a model call.
pub mod Clone
pub mod SubagentLimit
pub mod TokenBudget
pub mod LoopDetection
pub mod TerminalResponse
pub mod ToolReceipts
pub mod ToolErrors
pub mod Sanitization
mod Tests

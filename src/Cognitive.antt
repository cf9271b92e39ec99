-- ===== src/Cognitive.antt =====
-- crates/darius-cognitive: the agent loop over a conversation.
pub mod Types
pub mod Conversation
pub mod Compact
pub mod Exec
pub mod Host
pub mod Policy
pub mod Calls
pub mod Loop
pub mod Transcript
pub mod Compress

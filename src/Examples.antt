-- ===== src/Examples.antt =====
-- Small runs of each part, at concrete values.
pub mod Script
pub mod Turns
pub mod Transcripts
pub mod Budgets
pub mod Boards
pub mod Files
pub mod Terminal
pub mod Sessions

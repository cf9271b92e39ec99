-- ===== src/Daemon.antt =====
-- crates/darius-daemon: token budgets, the kanban board, quotas, cron jobs and the prompt cache.
pub mod Budget
pub mod Kanban
pub mod Quotas
pub mod Cron
pub mod Cache

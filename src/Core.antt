-- ===== src/Core.antt =====
-- crates/darius-core: the slash commands, the providers and the catalog of models.
pub mod Providers
pub mod Models
pub mod Commands

-- ===== src/Cli.antt =====
-- crates/darius-cli: the session, and the actor that serves the commands of the terminal interface.
pub mod Session
pub mod Control
pub mod Actor
pub mod Slash
pub mod Serve
pub mod Turn

-- ===== src/Tui.antt =====
-- crates/darius-tui: the state of the terminal interface, and what an action of the user, an event of
-- the runtime and a key make of it.
pub mod State
pub mod Composer
pub mod Dialogs
pub mod Palette
pub mod Reduce
pub mod Events
pub mod Keys
pub mod Sound
pub mod Refines
pub mod Queue
pub mod Guard
pub mod Shown
pub mod Turns
pub mod Chooser

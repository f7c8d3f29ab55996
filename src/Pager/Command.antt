-- ===== src/Pager/Command.antt =====
-- The commands of the pager (src/pager/command.rs).
pub mod Types
pub mod Tokens
pub mod Args
pub mod Parse
pub mod Bounds
pub mod Visible
pub mod Flags
mod Tests

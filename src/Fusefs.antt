-- ===== src/Fusefs.antt =====
-- The package internal/fusefs.
pub mod Buffer
pub mod Download
pub mod Handle
pub mod Names
pub mod Open
pub mod Previews
pub mod Rules
pub mod Shown
pub mod Unmount
pub mod Release
pub mod Steps
pub mod Transfers
pub mod Listing
pub mod Remote

-- ===== src/Cmd.antt =====
-- The program cmd/proton-drive-fs.
pub mod Mounts
pub mod Options
pub mod Unmount

-- ===== src/Drive.antt =====
-- The packages under internal/drive.
pub mod Errors
pub mod Activity
pub mod Read
pub mod File
pub mod BlockCache
pub mod Http
pub mod Upload
pub mod Events
pub mod Nodes
pub mod Write

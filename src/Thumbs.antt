-- ===== src/Thumbs.antt =====
-- The package internal/thumbs.
pub mod Png
pub mod Registry

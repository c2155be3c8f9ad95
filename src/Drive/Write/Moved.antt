-- ===== src/Drive/Write/Moved.antt =====
-- internal/drive/write.go: what a move returns, and what the drive then has.

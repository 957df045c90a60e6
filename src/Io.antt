-- ===== src/Io.antt =====
-- io: where the blocks of a file are loaded.
pub mod Assigner

-- ===== src/Git.antt =====
-- commands.cpp: what the commands ask of git.
pub mod Config
pub mod Paths
pub mod Attributes
pub mod Batches
pub mod EncryptedFiles
pub mod FoundFiles

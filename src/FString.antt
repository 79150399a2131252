-- ===== src/FString.antt =====
-- fstring_rewrite.go
pub mod Scan
mod Trim
pub mod Outcome
pub mod Content
pub mod Rewrite
mod Tests

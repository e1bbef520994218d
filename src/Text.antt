-- ===== src/Text.antt =====
-- The helpers on names and texts of format.go.
pub mod Fold
pub mod Valid
pub mod Glob
pub mod Fmt

-- ===== src/Handlers.antt =====
-- The built-in handlers of builtin.go, modes.go, cap.go and cap_tags.go that keep the tracker up
-- to date.
pub mod Membership
pub mod Details
pub mod Sequences

-- ===== src/Tests.antt =====
-- Runs of the model on concrete data, and the theorems at concrete inputs.
mod Tracking
mod Texts
mod Messages
mod Lines
mod Sending
mod Negotiation
mod Splitting
mod Connection
mod Sessions
mod Bots

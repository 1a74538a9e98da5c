-- ===== src/Tests.antt =====
-- Runs at concrete inputs: each theorem whose statement has a hypothesis or a binder is applied once.
mod Disk
mod Redaction
mod Overlay
mod Policy
mod Network
mod Streams
mod Heads
mod Launching
mod Sessions
mod Namespace
mod Edits

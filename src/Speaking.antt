-- ===== src/Speaking.antt =====
-- src/server/speaking.c, by parts.
pub mod Queue
pub mod Spoken
pub mod Priorities
pub mod Choose
pub mod Enqueue
pub mod Stop
pub mod Pause
pub mod Events
pub mod Reload
pub mod Loop

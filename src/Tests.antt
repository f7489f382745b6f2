-- ===== src/Tests.antt =====
-- The theorems at concrete inputs, and runs of the code.
mod Conv
mod Speaking
mod Parse
mod Commands
mod Settings
mod Connections
mod Playback
mod Protocol
mod Loop
mod Marks

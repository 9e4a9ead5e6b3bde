-- ===== src/Examples.antt =====
-- The theorems at concrete inputs, and runs of the definitions.
pub mod Clock
mod Storage
mod Queues
mod Schedules
mod Playback
mod Channel
mod Collecting
mod Requests
mod Statistics

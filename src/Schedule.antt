-- ===== src/Schedule.antt =====
-- player/schedule
pub mod Item
pub mod Queue
pub mod Criteria
pub mod Scheduler

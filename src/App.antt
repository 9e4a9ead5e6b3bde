-- ===== src/App.antt =====
-- XiboApp: what the application does with triggers, commands and its cached files. Child modules hold its parts.
pub mod Triggers
pub mod Resources
pub mod Control

-- ===== src/Settings.antt =====
-- app.py: what an administrator sets on the Settings page, and the list of the recent events.
pub mod Tuning
pub mod Webhooks
pub mod Recent

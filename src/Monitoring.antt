-- ===== src/Monitoring.antt =====
-- monitoring.py: conditions, snapshots and their differences, acknowledgements, webhook routing.
pub mod Acks
pub mod AckRoutes
pub mod Alerts
pub mod Cert
pub mod Conditions
pub mod Diff
pub mod Digest
pub mod Fires
pub mod Causes
pub mod Hooks
pub mod Quiet
pub mod Shape
pub mod Snapshot

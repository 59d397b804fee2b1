-- ===== src/Adapters.antt =====
-- adapters/base.py: what the host adapters share.
pub mod Errors

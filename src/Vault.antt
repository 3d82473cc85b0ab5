-- ===== src/Vault.antt =====
-- src/vault.py.
pub mod Reference
pub mod Client
pub mod Tests

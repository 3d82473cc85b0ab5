-- ===== src/Executor.antt =====
-- src/executor.py.
pub mod Outside
pub mod Result
pub mod Format
pub mod Shell
pub mod Params
pub mod Local
pub mod Remote
pub mod Kube
pub mod Dispatch
pub mod Tests

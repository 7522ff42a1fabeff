-- ===== src/Verify.antt =====
-- cli/internal/verify: install-time verification of an artifact.
pub mod Types
pub mod Checks
pub mod Pipeline
pub mod Evidence
pub mod Sound
pub mod Order
pub mod Trace
pub mod Warnings
mod Tests

-- ===== src/Tests.antt =====
-- Runs of the definitions on inputs of the test files, and the theorems at such inputs.
pub mod Decimal
pub mod Numeric
mod Engine
mod ForeignKey
pub mod Hooks
pub mod Bloom
mod JoinKeys

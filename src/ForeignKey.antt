-- ===== src/ForeignKey.antt =====
-- The scripted engine of unit/transaction/locator_sr.check_foreign_key/test.cpp: the world of
-- classes, indexes and rows, the stand-ins for the engine functions that the foreign key check calls,
-- and the expected outcome. The check itself (locator_check_foreign_key) is not in the repository.
pub mod World
pub mod Build
pub mod Fakes
pub mod Prune
pub mod Expect
pub mod Ledger
pub mod Oracle
pub mod Messages
pub mod Held
pub mod Pins
pub mod Rows
pub mod Classes

-- ===== src/Cores.antt =====
-- cores/refcore_rollback and cores/refcore_driven: the cores that the repository tests itself with.
pub mod Word
pub mod Rollback
pub mod Driven
pub mod Games
mod Tests
mod Lockstep

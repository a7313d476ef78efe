-- ===== src/Runtime.antt =====
-- The runtime, src/runtime: one core with the surfaces, inputs, sound and rewind ring around it.
pub mod RewindRing
pub mod State
pub mod Ready
pub mod Host
pub mod Boot
pub mod Load
pub mod Frame
pub mod CApi
pub mod Machine
pub mod Unpaused
pub mod Lockstep
mod Tests

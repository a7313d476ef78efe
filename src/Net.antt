-- ===== src/Net.antt =====
-- src/net: netplay. The messages and their bytes, and the sessions that exchange them.
pub mod Protocol
pub mod Crc32
pub mod Machine
mod Toy
pub mod Loopback
pub mod Tcp
pub mod Rollback
pub mod LockStep

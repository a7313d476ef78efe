-- ===== src/Shim.antt =====
-- cores/libretro_shim
pub mod Input
pub mod PixelConvert
pub mod Options
pub mod Json
pub mod Callbacks
pub mod Core

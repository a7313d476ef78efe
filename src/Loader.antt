-- ===== src/Loader.antt =====
-- How cores are loaded, under src/loader.
pub mod CoreLoader
pub mod Manifest
pub mod StaticCores

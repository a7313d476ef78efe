-- ===== src/Audio.antt =====
-- Audio output, under src/audio.
pub mod Output

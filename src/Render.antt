-- ===== src/Render.antt =====
-- src/render
pub mod SurfaceRing
pub mod FramebufferCopy

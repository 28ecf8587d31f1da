-- ===== src/Transform.antt =====
-- The way between rows and bytes, src/transform.
pub mod Marshal
pub mod PageProvider

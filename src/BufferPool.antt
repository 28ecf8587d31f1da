-- ===== src/BufferPool.antt =====
-- Pages in frames, src/buffer_pool.
pub mod Page
pub mod File
pub mod ClockCache
pub mod FramePool

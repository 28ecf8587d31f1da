-- ===== src/Tests/Frames.antt =====
-- Runs of src/buffer_pool/frame_pool.cpp on files in memory.
use simple_db.Base.{
  ℕ, zero, suc, ◌+◌, ◌-◌, ◌*◌, ◌<◌, ◌≡◌, refl, pos, some, ok, arith, find, get_elem?,
  length-replicate,
}
use simple_db.BufferPool.Page.{page_size, PageId, page_eq}
use simple_db.BufferPool.ClockCache.{size_mod}
use simple_db.BufferPool.FramePool.{Frame, FramePool, make_frame_pool, release_frame, destroy}
use simple_db.BufferPool.FramePool.Coherent.{IsPool, content, make_frame_pool-IsPool}
use simple_db.BufferPool.FramePool.Count.{Recounted, release_frame-Recounted}
use simple_db.BufferPool.File.Stored.{stored}
use simple_db.BufferPool.FramePool.Flush.{destroy-stored}
use simple_db.BufferPool.FramePool.Acquire.{Acquires, acquire_frame-Acquires}
use simple_db.Table.FixedTablePage.{zeros}
use simple_db.Transform.Marshal.{Bytes}
use simple_db.Tests.Memory.{Files, cells, length-cells, memory, memory-Lawful}

-- Each file has two pages of zeros.
abbrev nothing : Files
nothing fd = (2 * page_size, λ x. 0)

abbrev two_frames : FramePool Files
two_frames = make_frame_pool memory 2 (λ i. zeros page_size) nothing

two_frames-IsPool : IsPool memory two_frames
two_frames-IsPool =
    make_frame_pool-IsPool memory 2 (λ i. zeros page_size) nothing (omega arith)
      (λ i. length-replicate {A = ℕ} page_size 0)

make_frame_pool-IsPool_example :
    IsPool memory (make_frame_pool memory 2 (λ i. zeros page_size) nothing)
make_frame_pool-IsPool_example =
    make_frame_pool-IsPool memory 2 (λ i. zeros page_size) nothing (omega arith)
      (λ i. length-replicate {A = ℕ} page_size 0)

abbrev page_1 : PageId
page_1 = record { fd = pos 3; page_index = 1 }

abbrev bytes_1 : Bytes
bytes_1 = cells page_size (1 * page_size) (nothing (pos 3)).1

page_1_content : content memory page_1 two_frames ≡ some bytes_1
unfolding find
page_1_content = refl

two_frames_small :
    (i : ℕ) (f : Frame) → get_elem? two_frames.frames i ≡ some f → f.ref_count + 1 < size_mod
two_frames_small zero f e = let count : f.ref_count ≡ 0 = ground arith in omega arith
two_frames_small (suc zero) f e = let count : f.ref_count ≡ 0 = ground arith in omega arith
two_frames_small (suc (suc i)) f e = cc

acquire_frame-Acquires_example : Acquires memory memory-Lawful 5 page_1 bytes_1 two_frames
acquire_frame-Acquires_example =
    acquire_frame-Acquires memory memory-Lawful 5 two_frames page_1 bytes_1 two_frames-IsPool
      (λ e. cc) page_1_content (length-cells page_size (1 * page_size) (nothing (pos 3)).1)
      (λ miss. (0, _, refl, refl, omega arith)) two_frames_small

page_1_acquired : Acquires memory memory-Lawful 5 page_1 bytes_1 two_frames
page_1_acquired =
    acquire_frame-Acquires memory memory-Lawful 5 two_frames page_1 bytes_1 two_frames-IsPool
      (λ e. cc) page_1_content (length-cells page_size (1 * page_size) (nothing (pos 3)).1)
      (λ miss. (0, _, refl, refl, omega arith)) two_frames_small

page_1_referenced : 0 < page_1_acquired.3.frame.ref_count
page_1_referenced = let up = page_1_acquired.4.2 in omega (arith, up)

release_frame-Recounted_example :
    (pool' : FramePool Files) × (release_frame memory page_1_acquired.0 page_1_acquired.1
      ≡ ok pool')
    × Recounted memory page_1_acquired.0
        (page_1_acquired.3.frame.ref_count - 1)
        page_1_acquired.3.frame
        page_1_acquired.1
        pool'
release_frame-Recounted_example =
    release_frame-Recounted memory page_1_acquired.1 page_1_acquired.0 page_1_acquired.3.frame
      page_1_acquired.3.coherent page_1_acquired.3.at page_1_referenced

destroy-stored_example :
    (pool' : FramePool Files) × (destroy memory page_1_acquired.1 ≡ ok pool')
    × ((k : PageId) → stored memory k pool'.disk ≡ content memory k page_1_acquired.1)
destroy-stored_example =
    destroy-stored memory memory-Lawful page_1_acquired.1 page_1_acquired.3.coherent

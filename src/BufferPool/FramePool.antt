-- ===== src/BufferPool/FramePool.antt =====
-- src/buffer_pool/frame.h, frame_pool.cpp, pool_page.cpp and buffer_pool.cpp: pages of files in
-- frames. A pointer to a frame's data is the index of the frame.
pub mod Coherent
pub mod Refresh
pub mod Count
pub mod Dump
pub mod Load
pub mod Place
pub mod Acquire
pub mod Write
pub mod Redisk
pub mod Flush
use simple_db.Base.{
  [], ◌∷◌, ℕ, zero, suc, ◌+◌, ◌-◌, ◌%◌, List, Option, none, some, Result, ok, ◌>>=◌, ◌>>◌, guard,
  or_fail, assert_failed, out_of_range, null_pointer, eqb, ltb, eqb_ℤ, length, replicate, get_elem?,
  set, if◌then◌else◌, pos,
}
use simple_db.BufferPool.Page.{FileFd, PageId, page_eq}
use simple_db.BufferPool.File.{Os, write, read}
use simple_db.BufferPool.ClockCache.{ClockCache, size_mod, init, get, put, lock, unlock}
use simple_db.Transform.Marshal.{Bytes}

-- The owner is known by its descriptor, which is all that a frame uses of it.
pub record Frame : Type 0 where
  pub bytes : Bytes
  pub owner : Option FileFd
  pub page_index : ℕ
  pub ref_count : ℕ

-- `disk` is what the files hold.
pub record FramePool (Disk : Type 0) : Type 0 where
  pub frames : List Frame
  pub cache : ClockCache PageId
  pub disk : Disk

pub record PoolPage : Type 0 where
  pub frame_index : ℕ

-- A frame without an owner.
abbrev pub new_frame : Bytes → Frame
new_frame bytes = record { bytes = bytes; owner = none; page_index = 0; ref_count = 0 }

-- The frames from index `i` on.
abbrev pub new_frames : (ℕ → Bytes) → ℕ → ℕ → List Frame
new_frames bytes zero i = []
new_frames bytes (suc n) i = new_frame (bytes i) ∷ new_frames bytes n (i + 1)

module _ (os : Os) where
  open os use {Disk}

  -- pvalloc leaves open what the bytes of each frame are.
  abbrev pub make_frame_pool : ℕ → (ℕ → Bytes) → Disk → FramePool Disk
  make_frame_pool frame_count bytes disk = record {
    frames = new_frames bytes frame_count 0;
    cache = init (record { fd = pos 0; page_index = 0 }) frame_count;
    disk = disk;
  }

  unfoldable pub dump_data : Frame → Disk → Result Disk
  dump_data f disk = elim f.owner [
    | none ↦ ok disk
    | some fd ↦ write os fd f.page_index f.bytes disk
  ]

  unfoldable pub dump_frame : ℕ → FramePool Disk → Result (FramePool Disk)
  dump_frame i pool = do
    guard (ltb i (length pool.frames)) assert_failed
    f ← or_fail (get_elem? pool.frames i) out_of_range
    disk ← dump_data f pool.disk
    ok (record pool { disk = disk })

  unfoldable pub read_frame : FileFd → ℕ → ℕ → FramePool Disk → Result (FramePool Disk)
  read_frame fd i page pool = do
    guard (ltb i (length pool.frames)) assert_failed
    bytes ← read os fd page pool.disk
    ok (record pool {
      frames =
          set pool.frames i
            (record { bytes = bytes; owner = some fd; page_index = page; ref_count = 0 });
    })

  -- The page is in frame `i` already.
  unfoldable pub frame_found : FileFd → ℕ → ℕ → FramePool Disk → Result (ℕ × FramePool Disk)
  frame_found fd page i pool = do
    f ← or_fail (get_elem? pool.frames i) out_of_range
    guard (eqb f.page_index page) assert_failed
    owner ← or_fail f.owner null_pointer
    guard (eqb_ℤ owner fd) assert_failed
    ok (i, pool)

  -- The page takes the frame that the clock gives up, whose page goes back to its file.
  unfoldable pub frame_loaded : ℕ → FileFd → ℕ → FramePool Disk → Result (ℕ × FramePool Disk)
  frame_loaded fuel fd page pool = do
    (i, cache) ← put fuel (record { fd = fd; page_index = page }) pool.cache
    dumped ← dump_frame i (record pool { cache = cache })
    loaded ← read_frame fd i page dumped
    ok (i, loaded)

  -- The first reference locks the frame.
  unfoldable pub retain_frame : ℕ → FramePool Disk → Result (FramePool Disk)
  retain_frame i pool = do
    f ← or_fail (get_elem? pool.frames i) out_of_range
    let count = (f.ref_count + 1) % size_mod
    let frames = set pool.frames i (record f { ref_count = count })
    if eqb count 1
        then (do cache ← lock i pool.cache; ok (record pool { frames = frames; cache = cache }))
        else ok (record pool { frames = frames })

  unfoldable pub acquire_frame : ℕ → FileFd → ℕ → FramePool Disk → Result (ℕ × FramePool Disk)
  unfolding frame_found frame_loaded retain_frame
  acquire_frame fuel fd page pool = do
    (found, cache) ← get (record { fd = fd; page_index = page }) pool.cache
    (i, pool') ← elim found [
      | some i ↦ frame_found fd page i (record pool { cache = cache })
      | none ↦ frame_loaded fuel fd page (record pool { cache = cache })
    ]
    pool'' ← retain_frame i pool'
    ok (i, pool'')

  -- --ref_count wraps around at 0.
  unfoldable pub release_frame : ℕ → FramePool Disk → Result (FramePool Disk)
  release_frame i pool = do
    f ← or_fail (get_elem? pool.frames i) out_of_range
    let count = (f.ref_count + (size_mod - 1)) % size_mod
    let frames = set pool.frames i (record f { ref_count = count })
    if eqb count 0
        then (do cache ← unlock i pool.cache; ok (record pool { frames = frames; cache = cache }))
        else ok (record pool { frames = frames })

  -- IBufferPool::get_page makes a PoolPage, and its destructor releases the frame.
  unfoldable pub get_page : ℕ → FileFd → ℕ → FramePool Disk → Result (PoolPage × FramePool Disk)
  get_page fuel fd page pool = do
    (i, pool') ← acquire_frame fuel fd page pool
    ok (record { frame_index = i }, pool')

  unfoldable pub drop_page : PoolPage → FramePool Disk → Result (FramePool Disk)
  drop_page page pool = release_frame page.frame_index pool

  unfoldable pub get_data : PoolPage → FramePool Disk → Result Bytes
  get_data page pool = do
    f ← or_fail (get_elem? pool.frames page.frame_index) out_of_range
    ok f.bytes

  -- What a client writes through the pointer of its page.
  unfoldable pub set_data : PoolPage → Bytes → FramePool Disk → Result (FramePool Disk)
  set_data page bytes pool = do
    f ← or_fail (get_elem? pool.frames page.frame_index) out_of_range
    ok (record pool { frames = set pool.frames page.frame_index (record f { bytes = bytes }) })

  -- The destructor, which writes every frame back, by the frames that are left.
  unfoldable pub dump_from : ℕ → ℕ → FramePool Disk → Result (FramePool Disk)
  unfolding dump_frame
  dump_from zero i pool = ok pool
  dump_from (suc n) i pool = do pool' ← dump_frame i pool; dump_from n (i + 1) pool'

  unfoldable pub destroy : FramePool Disk → Result (FramePool Disk)
  destroy pool = dump_from (length pool.frames) 0 pool

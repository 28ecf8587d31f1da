-- ===== src/BufferPool/FramePool/Coherent.antt =====
-- The invariant of frame_pool.cpp, and what a page holds: its frame's bytes, or the disk's.
use simple_db.Base.{
  ap, ◌+◌, zero, suc, replicate, ℕ, ◌<◌, ◌≡◌, ◌≢◌, refl, Bool, not, Option, none, some, arith, eqb,
  length, get_elem?, find, pos,
}
use simple_db.BufferPool.Page.{page_size, FileFd, PageId, page_eq}
use simple_db.BufferPool.File.{Os}
use simple_db.BufferPool.File.Stored.{stored, OnDisk}
use simple_db.BufferPool.ClockCache.{BufferDescriptor, ClockCache, size_mod}
use simple_db.BufferPool.ClockCache.Valid.{IsValid, init-IsValid}
use simple_db.BufferPool.FramePool.{Frame, FramePool, new_frame, new_frames, make_frame_pool}
use simple_db.Transform.Marshal.{Bytes}

-- The key of a descriptor that was never used.
abbrev pub no_page : PageId
no_page = record { fd = pos 0; page_index = 0 }

abbrev pub is_referenced : Frame → Bool
is_referenced f = not (eqb f.ref_count 0)

abbrev pub frame_bytes : Option Frame → Option Bytes
frame_bytes none = none
frame_bytes (some f) = some f.bytes

length-new_frames : (bytes : ℕ → Bytes) (n i : ℕ) → length (new_frames bytes n i) ≡ n
length-new_frames bytes zero i = refl
length-new_frames bytes (suc n) i = ap suc (length-new_frames bytes n (i + 1))

pub get_elem?-new_frames :
    (bytes : ℕ → Bytes) (n i j : ℕ) (f : Frame)
    → get_elem? (new_frames bytes n i) j ≡ some f
    → (k : ℕ) × (f ≡ new_frame (bytes k))
get_elem?-new_frames bytes zero i j f e = cc
get_elem?-new_frames bytes (suc n) i zero f e = (i, cc)
get_elem?-new_frames bytes (suc n) i (suc j) f e = get_elem?-new_frames bytes n (i + 1) j f e

module _ (os : Os) where
  open os use {Disk}

  -- Frame `i` belongs to the page, which the table leads to it and a file holds.
  pub record Owns (k : PageId) (i : ℕ) (cache : ClockCache PageId) (disk : Disk) : Type 0 where
    pub cached : find k cache.buffer_table_layer ≡ some i
    pub on_disk : OnDisk os k disk

  pub record IsFrame (i : ℕ) (f : Frame) (d : BufferDescriptor PageId) (cache : ClockCache PageId)
      (disk : Disk) : Type 0 where
    pub full : length f.bytes ≡ page_size
    pub small : f.ref_count < size_mod
    pub locked : d.lock ≡ is_referenced f
    pub unused : f.owner ≡ none → d.tag ≡ no_page
    pub owned :
        (fd : FileFd)
        → f.owner ≡ some fd
        → Owns (record { fd = fd; page_index = f.page_index }) i cache disk

  -- The frame that the table leads to holds the page. No file has the descriptor 0.
  pub record IsCached (k : PageId) (i : ℕ) (pool : FramePool Disk) : Type 0 where
    pub frame : Frame
    pub at : get_elem? pool.frames i ≡ some frame
    pub owner : frame.owner ≡ some k.fd
    pub page : frame.page_index ≡ k.page_index
    pub nonzero : k.fd ≢ pos 0

  pub record IsPool (pool : FramePool Disk) : Type 0 where
    pub valid : IsValid pool.cache
    pub sized : length pool.frames ≡ pool.cache.capacity
    pub frames :
        (i : ℕ) (f : Frame) (d : BufferDescriptor PageId)
        → get_elem? pool.frames i ≡ some f
        → get_elem? pool.cache.buffer_descriptors_layer i ≡ some d
        → IsFrame i f d pool.cache pool.disk
    pub cached :
        (k : PageId) (i : ℕ) → find k pool.cache.buffer_table_layer ≡ some i → IsCached k i pool

  -- What the page holds.
  abbrev pub content : PageId → FramePool Disk → Option Bytes
  content k pool = elim (find k pool.cache.buffer_table_layer) [
    | none ↦ stored os k pool.disk
    | some i ↦ frame_bytes (get_elem? pool.frames i)
  ]

  pub content_miss :
      (k : PageId) (pool : FramePool Disk)
      → find k pool.cache.buffer_table_layer ≡ none
      → content k pool ≡ stored os k pool.disk
  content_miss k pool e = rw (content, e)

  pub content_hit :
      (k : PageId) (i : ℕ) (pool : FramePool Disk)
      → find k pool.cache.buffer_table_layer ≡ some i
      → content k pool ≡ frame_bytes (get_elem? pool.frames i)
  content_hit k i pool e = rw (content, e)

  pub get_elem?-replicate :
      {A : Type 0} (n i : ℕ) (a x : A) → get_elem? (replicate n a) i ≡ some x → x ≡ a
  get_elem?-replicate zero i a x e = cc
  get_elem?-replicate (suc n) zero a x e = cc
  get_elem?-replicate (suc n) (suc i) a x e = get_elem?-replicate n i a x e

  -- A new pool of at least one frame is coherent, whatever bytes of a page each of its frames begins
  -- with.
  pub make_frame_pool-IsPool :
      (n : ℕ) (bytes : ℕ → Bytes) (disk : Disk)
      → 0 < n
      → ((i : ℕ) → length (bytes i) ≡ page_size)
      → IsPool (make_frame_pool os n bytes disk)
  unfolding find
  make_frame_pool-IsPool n bytes disk h full = record {
    valid = init-IsValid no_page n h;
    sized = length-new_frames bytes n 0;
    frames = λ i f d e g.
        let (k, f_is) = get_elem?-new_frames bytes n 0 i f e in
        let d_is = get_elem?-replicate n i _ d g in
        rw (f_is, d_is)
          (record {
            full = full k;
            small = omega arith;
            locked = refl;
            unused = λ e'. refl;
            owned = λ fd o. cc;
          });
    cached = λ k i e. cc;
  }

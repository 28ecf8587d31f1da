-- ===== src/BufferPool/FramePool/Place.antt =====
-- FramePool::acquire_frame: the frame that a page is loaded into.
use simple_db.Base.{
  ltb, ℕ, ◌+◌, ◌*◌, ◌<◌, ◌≡◌, ◌≢◌, refl, true, false, none, some, Result, ok, arith, lt→ltb, length,
  get_elem?, get_elem?-lt, get_elem?-set_ne, get_elem?_of_lt, find, pos,
}
use simple_db.BufferPool.Page.{page_size, PageId, page_eq}
use simple_db.BufferPool.File.{Os}
use simple_db.BufferPool.File.Stored.{LawfulOs, stored, read_lem}
use simple_db.BufferPool.ClockCache.{BufferDescriptor, ClockCache, put}
use simple_db.BufferPool.ClockCache.Sweep.{distance}
use simple_db.BufferPool.ClockCache.Put.{Puts, put-Puts}
use simple_db.BufferPool.FramePool.{
  Frame, FramePool, dump_data, dump_frame, read_frame, frame_loaded,
}
use simple_db.BufferPool.FramePool.Coherent.{IsPool}
use simple_db.BufferPool.FramePool.Refresh.{SameContent}
use simple_db.BufferPool.FramePool.Dump.{Dumped, dump_data-Dumped}
use simple_db.BufferPool.FramePool.Load.{
  loaded, new_frame, new_at, stored_new, find_new, loaded-IsPool, loaded-SameContent,
}
use simple_db.Transform.Marshal.{Bytes}

-- An unlocked frame within reach of the sweep.
abbrev pub HasRoom : ℕ → ClockCache PageId → Type 0
HasRoom fuel c =
    (j : ℕ) × (d : BufferDescriptor PageId) × (get_elem? c.buffer_descriptors_layer j ≡ some d)
    × (d.lock ≡ false)
    × (d.usage * c.capacity + distance c.capacity c.cursor j < fuel)

module _ (os : Os) (lawful : LawfulOs os) where
  open os use {Disk}

  -- The page is in frame `i`, with its bytes. What the pages hold has not changed, and no other
  -- frame has.
  pub record Placed (k : PageId) (bytes : Bytes) (pool : FramePool Disk) (i : ℕ)
      (pool' : FramePool Disk) : Type 0 where
    pub coherent : IsPool os pool'
    pub content : SameContent os pool pool'
    pub cached : find k pool'.cache.buffer_table_layer ≡ some i
    pub frame : Frame
    pub at : get_elem? pool'.frames i ≡ some frame
    pub holds : frame.bytes ≡ bytes
    pub others : (j : ℕ) → i ≢ j → get_elem? pool'.frames j ≡ get_elem? pool.frames j

  -- The frame's count is greater by `n` than it was.
  abbrev pub Counts : ℕ → ℕ → FramePool Disk → Frame → Type 0
  Counts n i pool f =
      (g : Frame) × (get_elem? pool.frames i ≡ some g) × (f.ref_count ≡ g.ref_count + n)

  -- What a call that loads the page comes to.
  abbrev pub Places : PageId → Bytes → FramePool Disk → Result (ℕ × FramePool Disk) → Type 0
  Places k bytes pool call =
      (i : ℕ) × (pool' : FramePool Disk) × (call ≡ ok (i, pool'))
      × (p : Placed k bytes pool i pool') × Counts 0 i pool p.frame

  load_into :
      (fuel : ℕ) (pool : FramePool Disk) (k : PageId) (bytes : Bytes) (i : ℕ)
      (c' : ClockCache PageId) (f : Frame) (disk' : Disk)
      → IsPool os pool
      → find k pool.cache.buffer_table_layer ≡ none
      → k.fd ≢ pos 0
      → stored os k pool.disk ≡ some bytes
      → length bytes ≡ page_size
      → put fuel k pool.cache ≡ ok (i, c')
      → Puts k pool.cache i c'
      → get_elem? pool.frames i ≡ some f
      → dump_data os f pool.disk ≡ ok disk'
      → Dumped os f pool.disk disk'
      → Places k bytes pool (frame_loaded os fuel k.fd k.page_index pool)
  unfolding frame_loaded dump_frame read_frame
  load_into fuel pool k bytes i c' f disk' v miss nonzero was full done p at dump d =
      let inside : ltb i (length pool.frames) ≡ true =
        lt→ltb i (length pool.frames) (get_elem?-lt pool.frames i f at) in
      let new = loaded os lawful pool k i c' f v miss nonzero p at disk' bytes d was full in
      let there = stored_new os lawful pool k i c' f v miss nonzero p at disk' bytes d was full in
      let read_k = read_lem os k bytes disk' there full in
      (
        i,
        new,
        rw (done, inside, at, dump, inside, read_k),
        record {
          coherent =
              loaded-IsPool os lawful pool k i c' f v miss nonzero p at disk' bytes d was full;
          content =
              loaded-SameContent os lawful pool k i c' f v miss nonzero p at disk' bytes d was full;
          cached = find_new os lawful pool k i c' f v miss nonzero p at;
          frame = new_frame os lawful pool k i c' f v miss nonzero p at disk' bytes d was full;
          at = new_at os lawful pool k i c' f v miss nonzero p at disk' bytes d was full;
          holds = refl;
          others = λ j ne. get_elem?-set_ne pool.frames i j _ ne;
        },
        (f, at, unreferenced),
      )
    where
      unreferenced : 0 ≡ f.ref_count + 0
      unreferenced = let locked = (v.frames i f p.old at p.was).locked in ground (arith, p.unlocked)

  -- A page that no frame holds comes into a frame that was not referenced.
  pub frame_loaded-Places :
      (fuel : ℕ) (pool : FramePool Disk) (k : PageId) (bytes : Bytes)
      → IsPool os pool
      → find k pool.cache.buffer_table_layer ≡ none
      → k.fd ≢ pos 0
      → stored os k pool.disk ≡ some bytes
      → length bytes ≡ page_size
      → HasRoom fuel pool.cache
      → Places k bytes pool (frame_loaded os fuel k.fd k.page_index pool)
  frame_loaded-Places fuel pool k bytes v miss nonzero was full (j, dj, ej, free, bound) =
      let (r, done, p) = put-Puts fuel k pool.cache j dj v.valid ej free bound in
      let inside : r.0 < length pool.frames = omega (
        arith,
        get_elem?-lt pool.cache.buffer_descriptors_layer r.0 p.old p.was,
        v.sized,
        v.valid.place.sized,
      ) in
      let (f, at) = get_elem?_of_lt pool.frames r.0 inside in
      let old = v.frames r.0 f p.old at p.was in
      let (disk', dump, d) =
        dump_data-Dumped os lawful f pool.disk old.full (λ fd e. (old.owned fd e).on_disk) in
      load_into fuel pool k bytes r.0 r.1 f disk' v miss nonzero was full done p at dump d

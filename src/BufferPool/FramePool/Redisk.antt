-- ===== src/BufferPool/FramePool/Redisk.antt =====
-- A pool whose files have changed beside the pages that it caches.
use simple_db.Base.{
  ℕ, ◌≡◌, sym, ap, ◌∙◌, none, some, inl, inr, arith, get_elem?-lt, get_elem?_of_lt, find,
  Option-cases, length,
}
use simple_db.BufferPool.Page.{page_size, PageId, page_eq, page_of_parts}
use simple_db.BufferPool.File.{Os}
use simple_db.BufferPool.File.Stored.{stored, OnDisk}
use simple_db.BufferPool.FramePool.{FramePool}
use simple_db.BufferPool.FramePool.Coherent.{
  IsPool, content, content_hit, content_miss, frame_bytes,
}
use simple_db.Transform.Marshal.{Bytes}

module _ (os : Os) where
  open os use {Disk}

  abbrev pub redisk : FramePool Disk → Disk → FramePool Disk
  redisk pool disk = record pool { disk = disk }

  -- A page that is cached is on the disk, and its frame has all its bytes.
  pub cached-OnDisk :
      (pool : FramePool Disk) (k : PageId) (i : ℕ)
      → IsPool os pool
      → find k pool.cache.buffer_table_layer ≡ some i
      → (bytes : Bytes) × (content os k pool ≡ some bytes)
        × (length bytes ≡ page_size)
        × OnDisk os k pool.disk
  cached-OnDisk pool k i v hit =
      let o = v.cached k i hit in
      let (d, ed) =
        get_elem?_of_lt pool.cache.buffer_descriptors_layer i
          (omega (arith, get_elem?-lt pool.frames i o.frame o.at, v.sized, v.valid.place.sized)) in
      let w = v.frames i o.frame d o.at ed in
      let is =
        page_of_parts (record { fd = k.fd; page_index = o.frame.page_index }) k (λ i'. k.fd)
          o.page in
      let (b, e, l) = (w.owned k.fd o.owner).on_disk in
      (
        o.frame.bytes,
        content_hit os k i pool hit ∙ ap frame_bytes o.at,
        w.full,
        (b, ap (λ x. stored os x pool.disk) (sym is) ∙ e, l),
      )

  module _ (pool : FramePool Disk) (disk : Disk) where
    pub redisk-IsPool :
        IsPool os pool
        → ((k : PageId) (i : ℕ)
            → find k pool.cache.buffer_table_layer ≡ some i
            → OnDisk os k pool.disk
            → OnDisk os k disk)
        → IsPool os (redisk pool disk)
    redisk-IsPool v kept = record {
      valid = v.valid;
      sized = v.sized;
      frames = λ i f d e ed.
          let old = v.frames i f d e ed in
          record {
            full = old.full;
            small = old.small;
            locked = old.locked;
            unused = old.unused;
            owned = λ fd o.
                let own = old.owned fd o in
                record { cached = own.cached; on_disk = kept _ i own.cached own.on_disk };
          };
      cached = λ k i e.
          let o = v.cached k i e in
          record {
            frame = o.frame;
            at = o.at;
            owner = o.owner;
            page = o.page;
            nonzero = o.nonzero;
          };
    }

    pub redisk-content :
        (k : PageId)
        → (find k pool.cache.buffer_table_layer ≡ none → stored os k disk ≡ stored os k pool.disk)
        → content os k (redisk pool disk) ≡ content os k pool
    redisk-content k same = elim (Option-cases (find k pool.cache.buffer_table_layer)) [
      | inl miss ↦
          content_miss os k (redisk pool disk) miss ∙ same miss ∙ sym (content_miss os k pool miss)
      | inr (i, hit) ↦ content_hit os k i (redisk pool disk) hit ∙ sym (content_hit os k i pool hit)
    ]

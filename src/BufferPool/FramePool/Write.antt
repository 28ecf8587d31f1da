-- ===== src/BufferPool/FramePool/Write.antt =====
-- PoolPage::get_data: what its client writes through the pointer.
use simple_db.Base.{
  ℕ, ◌≡◌, ◌≢◌, refl, sym, ap, ◌∙◌, some, inl, inr, ok, arith, eqb, length, length-set, get_elem?,
  get_elem?-lt, get_elem?-set_self, get_elem?-set_ne, set, find, Bool-cases, Option-cases,
}
use simple_db.BufferPool.Page.{page_size, PageId, page_eq}
use simple_db.BufferPool.File.{Os}
use simple_db.BufferPool.ClockCache.{BufferDescriptor}
use simple_db.BufferPool.FramePool.{Frame, FramePool, PoolPage, set_data}
use simple_db.BufferPool.FramePool.Coherent.{
  frame_bytes, IsFrame, IsCached, IsPool, content, content_hit, content_miss,
}
use simple_db.Transform.Marshal.{Bytes}

module _ (os : Os) where
  open os use {Disk}

  -- The page in frame `i` has new bytes, and no other page has.
  pub record Rewritten (i : ℕ) (f : Frame) (bytes : Bytes) (pool pool' : FramePool Disk)
      : Type 0 where
    pub coherent : IsPool os pool'
    pub frames : pool'.frames ≡ set pool.frames i (record f { bytes = bytes })
    pub here :
        (k : PageId)
        → find k pool.cache.buffer_table_layer ≡ some i
        → content os k pool' ≡ some bytes
    pub others :
        (k : PageId)
        → find k pool.cache.buffer_table_layer ≢ some i
        → content os k pool' ≡ content os k pool

  module _ (pool : FramePool Disk) (i : ℕ) (f : Frame) (bytes : Bytes) (v : IsPool os pool)
      (at : get_elem? pool.frames i ≡ some f) (full : length bytes ≡ page_size) where
    abbrev new : Frame
    new = record f { bytes = bytes }

    abbrev rewritten : FramePool Disk
    rewritten = record pool { frames = set pool.frames i new }

    new_at : get_elem? rewritten.frames i ≡ some new
    new_at = get_elem?-set_self pool.frames i new (get_elem?-lt pool.frames i f at)

    new-IsFrame :
        (j : ℕ) (g : Frame) (d : BufferDescriptor PageId)
        → i ≡ j
        → get_elem? rewritten.frames j ≡ some g
        → get_elem? pool.cache.buffer_descriptors_layer j ≡ some d
        → IsFrame os j g d pool.cache pool.disk
    new-IsFrame j g d same e ed =
        let e' : get_elem? rewritten.frames i ≡ some g = ap (get_elem? rewritten.frames) same ∙ e in
        let g_is : g ≡ new = let n = new_at in cc in
        let old = v.frames j f d (ap (get_elem? pool.frames) (sym same) ∙ at) ed in
        rw g_is (record {
          full = full;
          small = old.small;
          locked = old.locked;
          unused = old.unused;
          owned = old.owned;
        })

    rewritten-IsFrame :
        (j : ℕ) (g : Frame) (d : BufferDescriptor PageId)
        → get_elem? rewritten.frames j ≡ some g
        → get_elem? pool.cache.buffer_descriptors_layer j ≡ some d
        → IsFrame os j g d pool.cache pool.disk
    rewritten-IsFrame j g d e ed = elim (Bool-cases (eqb i j)) [
      | inl here ↦ new-IsFrame j g d (ground arith) e ed
      | inr there ↦
          v.frames j g d (sym (get_elem?-set_ne pool.frames i j new (λ same. ground arith)) ∙ e) ed
    ]

    rewritten-IsCached :
        (k : PageId) (j : ℕ)
        → find k pool.cache.buffer_table_layer ≡ some j
        → IsCached os k j rewritten
    rewritten-IsCached k j e = elim (Bool-cases (eqb i j)) [
      | inl here ↦
          let same : i ≡ j = ground arith in
          let o = v.cached k j e in
          let at_j : get_elem? pool.frames j ≡ some f =
            ap (get_elem? pool.frames) (sym same) ∙ at in
          let is : o.frame ≡ f = let a = o.at in cc in
          record {
            frame = new;
            at = ap (get_elem? rewritten.frames) (sym same) ∙ new_at;
            owner = ap (λ (x : Frame). x.owner) (sym is) ∙ o.owner;
            page = ap (λ (x : Frame). x.page_index) (sym is) ∙ o.page;
            nonzero = o.nonzero;
          }
      | inr there ↦
          let o = v.cached k j e in
          record {
            frame = o.frame;
            at = get_elem?-set_ne pool.frames i j new (λ same. ground arith) ∙ o.at;
            owner = o.owner;
            page = o.page;
            nonzero = o.nonzero;
          }
    ]

    rewritten-IsPool : IsPool os rewritten
    rewritten-IsPool = record {
      valid = v.valid;
      sized = length-set pool.frames i new ∙ v.sized;
      frames = rewritten-IsFrame;
      cached = rewritten-IsCached;
    }

    content-other :
        (k : PageId)
        → find k pool.cache.buffer_table_layer ≢ some i
        → content os k rewritten ≡ content os k pool
    content-other k ne = elim (Option-cases (find k pool.cache.buffer_table_layer)) [
      | inl miss ↦ content_miss os k rewritten miss ∙ sym (content_miss os k pool miss)
      | inr (j, hit) ↦
          content_hit os k j rewritten hit
          ∙ ap frame_bytes
              (get_elem?-set_ne pool.frames i j new (λ same. ne (hit ∙ ap some (sym same))))
          ∙ sym (content_hit os k j pool hit)
    ]

    -- A client that writes a page's worth of bytes to its page changes that page alone, and the
    -- pool stays coherent.
    pub set_data-Rewritten :
        (page : PoolPage)
        → page.frame_index ≡ i
        → (pool' : FramePool Disk) × (set_data os page bytes pool ≡ ok pool')
          × Rewritten i f bytes pool pool'
    unfolding set_data
    set_data-Rewritten page e = (
      rewritten,
      rw (e, at),
      record {
        coherent = rewritten-IsPool;
        frames = refl;
        here = λ k hit. content_hit os k i rewritten hit ∙ ap frame_bytes new_at;
        others = content-other;
      },
    )

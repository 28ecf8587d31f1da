-- ===== src/BufferPool/FramePool/Refresh.antt =====
-- What retains and releases a frame, and no page's bytes.
use simple_db.Base.{
  ℕ, ◌<◌, ◌≡◌, ◌≢◌, refl, sym, ap, ◌∙◌, Bool, not, Option, none, some, inl, inr, arith, eqb,
  length-set, get_elem?, get_elem?-lt, get_elem?-set_self, get_elem?-set_ne, set, find, Bool-cases,
}
use mathlib.Core.Path.{subst}
use simple_db.BufferPool.Page.{PageId, page_eq}
use simple_db.BufferPool.File.{Os}
use simple_db.BufferPool.File.Stored.{stored}
use simple_db.BufferPool.ClockCache.{BufferDescriptor, ClockCache, size_mod}
use simple_db.BufferPool.ClockCache.Valid.{IsValid}
use simple_db.BufferPool.FramePool.{Frame, FramePool}
use simple_db.BufferPool.FramePool.Coherent.{frame_bytes, Owns, IsFrame, IsPool, content}

abbrev pub with_count : ℕ → Frame → Frame
with_count n f = record f { ref_count = n }

-- A cache with the same table and the same tags, and another lock at most at frame `i`.
pub record Relocks (i : ℕ) (b : Bool) (c c' : ClockCache PageId) : Type 0 where
  pub valid : IsValid c'
  pub table : c'.buffer_table_layer ≡ c.buffer_table_layer
  pub same_capacity : c'.capacity ≡ c.capacity
  pub here :
      (d' : BufferDescriptor PageId)
      → get_elem? c'.buffer_descriptors_layer i ≡ some d'
      → d'.lock ≡ b
  pub descriptor :
      (j : ℕ) (d' : BufferDescriptor PageId)
      → get_elem? c'.buffer_descriptors_layer j ≡ some d'
      → (d : BufferDescriptor PageId) × (get_elem? c.buffer_descriptors_layer j ≡ some d)
        × (d'.tag ≡ d.tag)
        × (i ≢ j → d'.lock ≡ d.lock)

module _ (os : Os) where
  open os use {Disk}

  -- The pool with another count at frame `i`.
  abbrev pub recount : ℕ → ℕ → Frame → ClockCache PageId → FramePool Disk → FramePool Disk
  recount i n f c' pool = record pool { frames = set pool.frames i (with_count n f); cache = c' }

  -- Every page holds what it did.
  abbrev pub SameContent : FramePool Disk → FramePool Disk → Type 0
  SameContent pool pool' = (k : PageId) → content os k pool' ≡ content os k pool

  module _ (pool : FramePool Disk) (i n : ℕ) (f : Frame) (c' : ClockCache PageId)
      (v : IsPool os pool) (at : get_elem? pool.frames i ≡ some f) (small : n < size_mod)
      (r : Relocks i (not (eqb n 0)) pool.cache c') where
    frame_at : get_elem? (set pool.frames i (with_count n f)) i ≡ some (with_count n f)
    frame_at = get_elem?-set_self pool.frames i (with_count n f) (get_elem?-lt pool.frames i f at)

    find_same : (k : PageId) → find k c'.buffer_table_layer ≡ find k pool.cache.buffer_table_layer
    find_same k = ap (λ t. find k t) r.table

    Owns-same : (k : PageId) (j : ℕ) → Owns os k j pool.cache pool.disk → Owns os k j c' pool.disk
    Owns-same k j o = record { cached = find_same k ∙ o.cached; on_disk = o.on_disk }

    frame_here :
        (g : Frame) (d' : BufferDescriptor PageId)
        → get_elem? (set pool.frames i (with_count n f)) i ≡ some g
        → get_elem? c'.buffer_descriptors_layer i ≡ some d'
        → IsFrame os i g d' c' pool.disk
    frame_here g d' e e' =
        let g_is : g ≡ with_count n f = let a = frame_at in cc in
        let (d, ed, tag, rest) = r.descriptor i d' e' in
        let old = v.frames i f d at ed in
        rw g_is (record {
          full = old.full;
          small = small;
          locked = r.here d' e';
          unused = λ none_owner. tag ∙ old.unused none_owner;
          owned = λ fd o. Owns-same _ i (old.owned fd o);
        })

    frame_there :
        (j : ℕ) (g : Frame) (d' : BufferDescriptor PageId)
        → i ≢ j
        → get_elem? (set pool.frames i (with_count n f)) j ≡ some g
        → get_elem? c'.buffer_descriptors_layer j ≡ some d'
        → IsFrame os j g d' c' pool.disk
    frame_there j g d' ne e e' =
        let (d, ed, tag, rest) = r.descriptor j d' e' in
        let old =
          v.frames j g d (sym (get_elem?-set_ne pool.frames i j (with_count n f) ne) ∙ e) ed in
        record {
          full = old.full;
          small = old.small;
          locked = rest ne ∙ old.locked;
          unused = λ none_owner. tag ∙ old.unused none_owner;
          owned = λ fd o. Owns-same _ j (old.owned fd o);
        }

    recount-IsFrame :
        (j : ℕ) (g : Frame) (d' : BufferDescriptor PageId)
        → get_elem? (set pool.frames i (with_count n f)) j ≡ some g
        → get_elem? c'.buffer_descriptors_layer j ≡ some d'
        → IsFrame os j g d' c' pool.disk
    recount-IsFrame j g d' = elim (Bool-cases (eqb i j)) [
      | inl here ↦
          let same : i ≡ j = ground arith in
          subst
            (λ x.
              get_elem? (set pool.frames i (with_count n f)) x ≡ some g
              → get_elem? c'.buffer_descriptors_layer x ≡ some d'
              → IsFrame os x g d' c' pool.disk)
            same (frame_here g d')
      | inr there ↦ frame_there j g d' (λ same. ground arith)
    ]

    -- The frame at `j` is as it was but for its count.
    frame_kept :
        (j : ℕ) (g : Frame)
        → get_elem? pool.frames j ≡ some g
        → (g' : Frame) × (get_elem? (set pool.frames i (with_count n f)) j ≡ some g')
          × (g'.bytes ≡ g.bytes)
          × (g'.owner ≡ g.owner)
          × (g'.page_index ≡ g.page_index)
    frame_kept j g e = elim (Bool-cases (eqb i j)) [
      | inl here ↦
          let same : i ≡ j = ground arith in
          let g_is : f ≡ g =
            let at_j : get_elem? pool.frames j ≡ some f =
              ap (get_elem? pool.frames) (sym same) ∙ at in
            cc in
          (
            with_count n f,
            ap (get_elem? (set pool.frames i (with_count n f))) (sym same) ∙ frame_at,
            ap (λ (x : Frame). x.bytes) g_is,
            ap (λ (x : Frame). x.owner) g_is,
            ap (λ (x : Frame). x.page_index) g_is,
          )
      | inr there ↦ (
        g,
        get_elem?-set_ne pool.frames i j (with_count n f) (λ same. ground arith) ∙ e,
        refl,
        refl,
        refl,
      )
    ]

    -- Another count at a frame, with the lock that belongs to it, keeps the pool's invariant.
    pub recount-IsPool : IsPool os (recount i n f c' pool)
    recount-IsPool = record {
      valid = r.valid;
      sized = length-set pool.frames i (with_count n f) ∙ v.sized ∙ sym r.same_capacity;
      frames = recount-IsFrame;
      cached = λ k j e.
          let o = v.cached k j (sym (find_same k) ∙ e) in
          let (g', e', b, w, p) = frame_kept j o.frame o.at in
          record {
            frame = g';
            at = e';
            owner = w ∙ o.owner;
            page = p ∙ o.page;
            nonzero = o.nonzero;
          };
    }

    -- It changes no page's bytes.
    pub recount-SameContent : SameContent pool (recount i n f c' pool)
    recount-SameContent k =
        rw (content, find_same k) (go (find k pool.cache.buffer_table_layer) refl)
      where
        go :
            (o : Option ℕ)
            → find k pool.cache.buffer_table_layer ≡ o
            → elim o [
              | none ↦ stored os k pool.disk
              | some j ↦ frame_bytes (get_elem? (set pool.frames i (with_count n f)) j)
            ]
              ≡ elim o [
                | none ↦ stored os k pool.disk
                | some j ↦ frame_bytes (get_elem? pool.frames j)
              ]
        go none e = refl
        go (some j) e =
            let o = v.cached k j e in
            let (g', e', b, w, p) = frame_kept j o.frame o.at in rw (e', o.at, b)

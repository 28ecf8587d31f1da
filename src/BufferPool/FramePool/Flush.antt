-- ===== src/BufferPool/FramePool/Flush.antt =====
-- The destructor of FramePool, which writes every frame back to its file.
use simple_db.Base.{
  ℕ, zero, suc, ◌+◌, ◌<◌, ◌≡◌, ◌≢◌, refl, sym, ap, ◌∙◌, false, none, some, inl, inr, ok, arith,
  lt→ltb, eqb, length, get_elem?, get_elem?-lt, get_elem?_of_lt, find, Bool-cases, Option-cases,
}
use simple_db.BufferPool.Page.{FileFd, PageId, page_eq, same_page, same_page_iff, page_of_parts}
use simple_db.BufferPool.File.{Os}
use simple_db.BufferPool.File.Stored.{LawfulOs, stored, OnDisk}
use simple_db.BufferPool.ClockCache.{BufferDescriptor}
use simple_db.BufferPool.FramePool.{Frame, FramePool, dump_frame, dump_from, destroy}
use simple_db.BufferPool.FramePool.Coherent.{
  frame_bytes, IsFrame, IsPool, content, content_hit, content_miss,
}
use simple_db.BufferPool.FramePool.Redisk.{redisk, redisk-IsPool, redisk-content}
use simple_db.BufferPool.FramePool.Refresh.{SameContent}
use simple_db.BufferPool.FramePool.Dump.{page_of, Dumped, dump_data-Dumped}

module _ (os : Os) (lawful : LawfulOs os) where
  open os use {Disk}

  -- The frames below `i` are as their files have them.
  abbrev IsFlushed : ℕ → FramePool Disk → Type 0
  IsFlushed i pool =
      (j : ℕ) (g : Frame) (fd : FileFd)
      → j < i
      → get_elem? pool.frames j ≡ some g
      → g.owner ≡ some fd
      → stored os (page_of fd g) pool.disk ≡ some g.bytes

  -- The pool after frame `i` has been written back.
  module _ (pool : FramePool Disk) (i : ℕ) (f : Frame) (disk : Disk) (v : IsPool os pool)
      (at : get_elem? pool.frames i ≡ some f) (d : Dumped os f pool.disk disk) where
    frame_at :
        (j : ℕ) (g : Frame)
        → get_elem? pool.frames j ≡ some g
        → (e : BufferDescriptor PageId) × (get_elem? pool.cache.buffer_descriptors_layer j ≡ some e)
          × IsFrame os j g e pool.cache pool.disk
    frame_at j g e =
        let (b, eb) =
          get_elem?_of_lt pool.cache.buffer_descriptors_layer j
            (omega (arith, get_elem?-lt pool.frames j g e, v.sized, v.valid.place.sized)) in
        (b, eb, v.frames j g b e eb)

    -- Two frames have two pages.
    apart :
        (j : ℕ) (g : Frame) (fd fd' : FileFd)
        → i ≢ j
        → get_elem? pool.frames j ≡ some g
        → g.owner ≡ some fd
        → f.owner ≡ some fd'
        → same_page (page_of fd' f) (page_of fd g) ≡ false
    apart j g fd fd' ne e o o' = elim (Bool-cases (same_page (page_of fd' f) (page_of fd g))) [
      | inr other ↦ other
      | inl same ↦
          let is = (same_page_iff _ _).0 same in
          let (b, eb, w) = frame_at j g e in
          let (b', eb', w') = frame_at i f at in
          let there = (w.owned fd o).cached in
          let here =
            ap (λ k. find k pool.cache.buffer_table_layer) (sym is) ∙ (w'.owned fd' o').cached in
          let two : i ≡ j = cc in absurd (ne two)
    ]

    OnDisk-kept : (k : PageId) → OnDisk os k pool.disk → OnDisk os k disk
    OnDisk-kept k (b, e, l) = elim (Option-cases f.owner) [
      | inl free ↦ (b, d.others k (λ fd e'. cc) ∙ e, l)
      | inr (fd, o) ↦ elim (Bool-cases (same_page (page_of fd f) k)) [
        | inl same ↦
            let is = (same_page_iff _ _).0 same in
            let (b', eb', w') = frame_at i f at in
            (f.bytes, ap (λ x. stored os x disk) (sym is) ∙ d.flushed fd o, w'.full)
        | inr other ↦ (
          b,
          d.others k (λ fd' o'.
                let one : fd' ≡ fd = cc in ap (λ x. same_page (page_of x f) k) one ∙ other)
              ∙ e,
          l,
        )
      ]
    ]

    dumped-IsPool : IsPool os (redisk os pool disk)
    dumped-IsPool = redisk-IsPool os pool disk v (λ k j hit. OnDisk-kept k)

    not_cached :
        (k : PageId) (fd : FileFd)
        → find k pool.cache.buffer_table_layer ≡ none
        → f.owner ≡ some fd
        → same_page (page_of fd f) k ≡ false
    not_cached k fd miss o = elim (Bool-cases (same_page (page_of fd f) k)) [
      | inr other ↦ other
      | inl same ↦
          let is = (same_page_iff _ _).0 same in
          let (b, eb, w) = frame_at i f at in
          let there =
            ap (λ x. find x pool.cache.buffer_table_layer) (sym is) ∙ (w.owned fd o).cached in
          cc
    ]

    dumped-SameContent : SameContent os pool (redisk os pool disk)
    dumped-SameContent k =
        redisk-content os pool disk k (λ miss. d.others k (λ fd o. not_cached k fd miss o))

    stays_flushed :
        (j : ℕ) (g : Frame) (fd : FileFd)
        → i ≢ j
        → get_elem? pool.frames j ≡ some g
        → g.owner ≡ some fd
        → stored os (page_of fd g) disk ≡ stored os (page_of fd g) pool.disk
    stays_flushed j g fd ne e o = d.others (page_of fd g) (λ fd' o'. apart j g fd fd' ne e o o')

    IsFlushed-next : IsFlushed i pool → IsFlushed (i + 1) (redisk os pool disk)
    IsFlushed-next fl j g fd h e o = elim (Bool-cases (eqb i j)) [
      | inr other ↦ stays_flushed j g fd (λ same. ground arith) e o ∙ fl j g fd (ground arith) e o
      | inl here ↦
          let same : i ≡ j = ground arith in
          let e' : get_elem? pool.frames i ≡ some g = ap (get_elem? pool.frames) same ∙ e in
          let is : f ≡ g = cc in
          ap (λ x. stored os (page_of fd x) disk) (sym is)
          ∙ d.flushed fd (ap (λ (x : Frame). x.owner) is ∙ o)
          ∙ ap (λ (x : Frame). some x.bytes) is
    ]

  -- What the loop of the destructor comes to.
  record Flushes (pool : FramePool Disk) (disk : Disk) : Type 0 where
    coherent : IsPool os (redisk os pool disk)
    content : SameContent os pool (redisk os pool disk)
    flushed : IsFlushed (length pool.frames) (redisk os pool disk)

  dump_from-Flushes :
      (n i : ℕ) (pool : FramePool Disk)
      → n + i ≡ length pool.frames
      → IsPool os pool
      → IsFlushed i pool
      → (disk : Disk) × (dump_from os n i pool ≡ ok (redisk os pool disk)) × Flushes pool disk
  unfolding dump_from dump_frame
  dump_from-Flushes zero i pool e v fl = (
    pool.disk,
    refl,
    record { coherent = v; content = λ k. refl; flushed = λ j g fd h. fl j g fd (omega arith) },
  )
  dump_from-Flushes (suc n) i pool e v fl =
      let inside : i < length pool.frames = omega arith in
      let (f, at) = get_elem?_of_lt pool.frames i inside in
      let (b, eb) =
        get_elem?_of_lt pool.cache.buffer_descriptors_layer i
          (omega (arith, v.sized, v.valid.place.sized)) in
      let old = v.frames i f b at eb in
      let (disk, dump, d) =
        dump_data-Dumped os lawful f pool.disk old.full (λ fd o. (old.owned fd o).on_disk) in
      let (last, run, w) =
        dump_from-Flushes n (i + 1) (redisk os pool disk) (omega arith)
          (dumped-IsPool pool i f disk v at d) (IsFlushed-next pool i f disk v at d fl) in
      (
        last,
        rw (lt→ltb i (length pool.frames) inside, at, dump) run,
        record {
          coherent = w.coherent;
          content = λ k. w.content k ∙ dumped-SameContent pool i f disk v at d k;
          flushed = w.flushed;
        },
      )

  flushed_content :
      (pool : FramePool Disk) (disk : Disk)
      → IsPool os pool
      → Flushes pool disk
      → (k : PageId) → stored os k disk ≡ content os k pool
  flushed_content pool disk v w k = elim (Option-cases (find k pool.cache.buffer_table_layer)) [
    | inl miss ↦ sym (content_miss os k (redisk os pool disk) miss) ∙ w.content k
    | inr (j, hit) ↦
        let o = v.cached k j hit in
        let is = page_of_parts (page_of k.fd o.frame) k refl o.page in
        ap (λ x. stored os x disk) (sym is)
        ∙ w.flushed j o.frame k.fd (get_elem?-lt pool.frames j o.frame o.at) o.at o.owner
        ∙ sym (ap frame_bytes o.at)
        ∙ sym (content_hit os k j pool hit)
  ]

  -- The destructor of a coherent pool never fails, and leaves in the files what every page held.
  pub destroy-stored :
      (pool : FramePool Disk)
      → IsPool os pool
      → (pool' : FramePool Disk) × (destroy os pool ≡ ok pool')
        × ((k : PageId) → stored os k pool'.disk ≡ content os k pool)
  unfolding destroy
  destroy-stored pool v =
      let (disk, run, w) =
        dump_from-Flushes (length pool.frames) 0 pool (omega arith) v
          (λ j g fd h. absurd (omega arith)) in
      (redisk os pool disk, run, flushed_content pool disk v w)

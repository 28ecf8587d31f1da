-- ===== src/BufferPool/FramePool/Load.antt =====
-- FramePool::acquire_frame on a page that no frame holds: one frame is given up for it.
use simple_db.Base.{
  ℕ, ◌≡◌, ◌≢◌, refl, sym, ap, ◌∙◌, true, false, none, some, inl, inr, arith, eqb, length,
  length-set, get_elem?, get_elem?-lt, get_elem?-set_self, get_elem?-set_ne, get_elem?_of_lt, set,
  find, pos, Bool-cases, Option-cases,
}
use mathlib.Core.Path.{subst}
use simple_db.BufferPool.Page.{page_size, FileFd, PageId, page_eq, same_page, same_page_iff}
use simple_db.BufferPool.File.{Os}
use simple_db.BufferPool.File.Stored.{LawfulOs, stored}
use simple_db.BufferPool.ClockCache.{BufferDescriptor, ClockCache}
use simple_db.BufferPool.ClockCache.Put.{Puts}
use simple_db.BufferPool.FramePool.{Frame, FramePool}
use simple_db.BufferPool.FramePool.Coherent.{
  no_page, frame_bytes, IsFrame, IsCached, IsPool, content, content_hit, content_miss,
}
use simple_db.Transform.Marshal.{Bytes}
use simple_db.BufferPool.FramePool.Dump.{page_of, Dumped}

module _ (os : Os) (lawful : LawfulOs os) where
  open os use {Disk}

  -- A pool in which page `k` has no frame, and the frame that `put` gives to it.
  module _ (pool : FramePool Disk) (k : PageId) (i : ℕ) (c' : ClockCache PageId) (f : Frame)
      (v : IsPool os pool) (miss : find k pool.cache.buffer_table_layer ≡ none)
      (nonzero : k.fd ≢ pos 0) (p : Puts k pool.cache i c')
      (at : get_elem? pool.frames i ≡ some f) where
    old : IsFrame os i f p.old pool.cache pool.disk
    old = v.frames i f p.old at p.was

    -- The page that the frame had is not the new one, and was in no other frame.
    tag_of : (j : PageId) → find j pool.cache.buffer_table_layer ≡ some i → p.old.tag ≡ j
    tag_of j e = let (d, g, t) = v.valid.mapped j i e in let w = p.was in cc

    pub owner_not_new : (fd : FileFd) → f.owner ≡ some fd → same_page (page_of fd f) k ≡ false
    owner_not_new fd e = elim (Bool-cases (same_page (page_of fd f) k)) [
      | inr ne ↦ ne
      | inl same ↦
          let is : page_of fd f ≡ k = (same_page_iff (page_of fd f) k).0 same in
          let hit : find k pool.cache.buffer_table_layer ≡ some i =
            ap (λ x. find x pool.cache.buffer_table_layer) (sym is) ∙ (old.owned fd e).cached in
          cc
    ]

    tag_elsewhere :
        (j : PageId) (l : ℕ) → find j pool.cache.buffer_table_layer ≡ some l → i ≢ l → p.old.tag ≢ j
    tag_elsewhere j l e ne t = elim (Option-cases f.owner) [
      | inl free ↦
          let zero_page : j ≡ no_page = sym t ∙ old.unused free in
          (v.cached j l e).nonzero (ap (λ (x : PageId). x.fd) zero_page)
      | inr (fd, e') ↦
          let c = (old.owned fd e').cached in
          let is : page_of fd f ≡ j = sym (tag_of (page_of fd f) c) ∙ t in
          let hit : find j pool.cache.buffer_table_layer ≡ some i =
            ap (λ x. find x pool.cache.buffer_table_layer) (sym is) ∙ c in
          let two : i ≡ l = cc in ne two
    ]

    pub find_new : find k c'.buffer_table_layer ≡ some i
    find_new = let self : same_page k k ≡ true = (same_page_iff k k).1 refl in p.table k ∙ rw self

    find_tag : same_page p.old.tag k ≡ false → find p.old.tag c'.buffer_table_layer ≡ none
    find_tag ne =
        let self : same_page p.old.tag p.old.tag ≡ true =
          (same_page_iff p.old.tag p.old.tag).1 refl in
        p.table p.old.tag ∙ rw (ne, self)

    find_other :
        (j : PageId)
        → same_page j k ≡ false
        → same_page j p.old.tag ≡ false
        → find j c'.buffer_table_layer ≡ find j pool.cache.buffer_table_layer
    find_other j a b = p.table j ∙ rw (a, b)

    not_same : (a b : PageId) → a ≢ b → same_page a b ≡ false
    not_same a b ne = elim (Bool-cases (same_page a b)) [
      | inl e ↦ absurd (ne ((same_page_iff a b).0 e))
      | inr e ↦ e
    ]

    -- A page in another frame stays there.
    find_kept :
        (j : PageId) (l : ℕ)
        → find j pool.cache.buffer_table_layer ≡ some l
        → i ≢ l
        → find j c'.buffer_table_layer ≡ some l
    find_kept j l e ne =
        let not_new : j ≢ k = λ x.
          let hit : find k pool.cache.buffer_table_layer ≡ some l =
            ap (λ y. find y pool.cache.buffer_table_layer) (sym x) ∙ e in
          cc in
        find_other j (not_same j k not_new)
          (not_same j p.old.tag (λ x. tag_elsewhere j l e ne (sym x)))
        ∙ e

    -- The pool when the new page is in the frame.
    module _ (disk' : Disk) (bytes : Bytes) (dumped : Dumped os f pool.disk disk')
        (was : stored os k pool.disk ≡ some bytes) (full : length bytes ≡ page_size) where
      abbrev pub new_frame : Frame
      new_frame = record {
        bytes = bytes;
        owner = some k.fd;
        page_index = k.page_index;
        ref_count = 0;
      }

      abbrev pub loaded : FramePool Disk
      loaded = record { frames = set pool.frames i new_frame; cache = c'; disk = disk' }

      pub new_at : get_elem? (set pool.frames i new_frame) i ≡ some new_frame
      new_at = get_elem?-set_self pool.frames i new_frame (get_elem?-lt pool.frames i f at)

      pub stored_new : stored os k disk' ≡ some bytes
      stored_new = dumped.others k owner_not_new ∙ was

      loaded_here :
          (g : Frame) (d' : BufferDescriptor PageId)
          → get_elem? (set pool.frames i new_frame) i ≡ some g
          → get_elem? c'.buffer_descriptors_layer i ≡ some d'
          → IsFrame os i g d' c' disk'
      loaded_here g d' e e' =
          let g_is : g ≡ new_frame = let a = new_at in cc in
          let (d, ed, tag, free) = p.now in
          let d_is : d' ≡ d = cc in
          rw (g_is, d_is)
            (record {
              full = full;
              small = omega arith;
              locked = free;
              unused = λ none_owner. cc;
              owned = λ fd o.
                  let is : fd ≡ k.fd = cc in
                  rw is (record { cached = find_new; on_disk = (bytes, stored_new, full) });
            })

      loaded_there :
          (l : ℕ) (g : Frame) (d' : BufferDescriptor PageId)
          → i ≢ l
          → get_elem? (set pool.frames i new_frame) l ≡ some g
          → get_elem? c'.buffer_descriptors_layer l ≡ some d'
          → IsFrame os l g d' c' disk'
      loaded_there l g d' ne e e' =
          let eg = sym (get_elem?-set_ne pool.frames i l new_frame ne) ∙ e in
          let (d, ed) =
            get_elem?_of_lt pool.cache.buffer_descriptors_layer l
              (omega (arith, get_elem?-lt pool.frames l g eg, v.sized, v.valid.place.sized)) in
          let (d'', e'', tag, lock) = p.others l d ne ed in
          let d_is : d' ≡ d'' = cc in
          let was_frame = v.frames l g d eg ed in
          rw d_is (record {
            full = was_frame.full;
            small = was_frame.small;
            locked = lock ∙ was_frame.locked;
            unused = λ none_owner. tag ∙ was_frame.unused none_owner;
            owned = λ fd o.
                let (b, s, n) = (was_frame.owned fd o).on_disk in
                record {
                  cached = find_kept (page_of fd g) l (was_frame.owned fd o).cached ne;
                  on_disk = (
                    b,
                    dumped.others (page_of fd g) (λ fd' o'. not_same _ _ (λ x.
                          let c = (old.owned fd' o').cached in
                          let hit : find (page_of fd g) pool.cache.buffer_table_layer ≡ some i =
                            ap (λ y. find y pool.cache.buffer_table_layer) (sym x) ∙ c in
                          let other = (was_frame.owned fd o).cached in
                          let two : i ≡ l = cc in ne two))
                        ∙ s,
                    n,
                  );
                };
          })

      loaded-IsFrame :
          (l : ℕ) (g : Frame) (d' : BufferDescriptor PageId)
          → get_elem? (set pool.frames i new_frame) l ≡ some g
          → get_elem? c'.buffer_descriptors_layer l ≡ some d'
          → IsFrame os l g d' c' disk'
      loaded-IsFrame l g d' = elim (Bool-cases (eqb i l)) [
        | inl here ↦
            let same : i ≡ l = ground arith in
            subst
              (λ x.
                get_elem? (set pool.frames i new_frame) x ≡ some g
                → get_elem? c'.buffer_descriptors_layer x ≡ some d'
                → IsFrame os x g d' c' disk')
              same (loaded_here g d')
        | inr there ↦ loaded_there l g d' (λ same. ground arith)
      ]

      not_evicted :
          (j : PageId) (l : ℕ)
          → find j pool.cache.buffer_table_layer ≡ some l
          → same_page j p.old.tag ≡ false
          → i ≢ l
      not_evicted j l e ne same =
          let hit : find j pool.cache.buffer_table_layer ≡ some i = e ∙ ap some (sym same) in
          let is = (same_page_iff j p.old.tag).1 (sym (tag_of j hit)) in cc

      IsCached-new : IsCached os k i loaded
      IsCached-new = record {
        frame = new_frame;
        at = new_at;
        owner = refl;
        page = refl;
        nonzero = nonzero;
      }

      IsCached-other :
          (j : PageId) (l : ℕ)
          → find j pool.cache.buffer_table_layer ≡ some l
          → i ≢ l
          → IsCached os j l loaded
      IsCached-other j l e ne =
          let o = v.cached j l e in
          record {
            frame = o.frame;
            at = get_elem?-set_ne pool.frames i l new_frame ne ∙ o.at;
            owner = o.owner;
            page = o.page;
            nonzero = o.nonzero;
          }

      find_tag_of :
          (j : PageId)
          → same_page j k ≡ false
          → same_page j p.old.tag ≡ true
          → find j c'.buffer_table_layer ≡ none
      find_tag_of j ne same = p.table j ∙ rw (ne, same)

      loaded-IsCached :
          (j : PageId) (l : ℕ) → find j c'.buffer_table_layer ≡ some l → IsCached os j l loaded
      loaded-IsCached j l e = elim (Bool-cases (same_page j k)) [
        | inl new ↦
            let is : j ≡ k = (same_page_iff j k).0 new in
            let at_i : find j c'.buffer_table_layer ≡ some i =
              ap (λ x. find x c'.buffer_table_layer) is ∙ find_new in
            let il : l ≡ i = cc in rw (is, il) IsCached-new
        | inr ne ↦ elim (Bool-cases (same_page j p.old.tag)) [
          | inl gone ↦ let none_left = find_tag_of j ne gone in cc
          | inr ne' ↦
              let e' = sym (find_other j ne ne') ∙ e in
              IsCached-other j l e' (not_evicted j l e' ne')
        ]
      ]

      -- The pool keeps its invariant.
      pub loaded-IsPool : IsPool os loaded
      loaded-IsPool = record {
        valid = p.valid;
        sized = length-set pool.frames i new_frame ∙ v.sized ∙ sym p.same_capacity;
        frames = loaded-IsFrame;
        cached = loaded-IsCached;
      }

      content_new : content os k loaded ≡ content os k pool
      content_new =
          content_hit os k i loaded find_new
          ∙ ap frame_bytes new_at
          ∙ sym was
          ∙ sym (content_miss os k pool miss)

      content_tag :
          find p.old.tag c'.buffer_table_layer ≡ none
          → content os p.old.tag loaded ≡ content os p.old.tag pool
      content_tag gone = elim (Option-cases f.owner) [
        | inr (fd, e) ↦
            let c = (old.owned fd e).cached in
            let is = tag_of (page_of fd f) c in
            let hit : find p.old.tag pool.cache.buffer_table_layer ≡ some i =
              ap (λ x. find x pool.cache.buffer_table_layer) is ∙ c in
            content_miss os p.old.tag loaded gone
            ∙ ap (λ x. stored os x disk') is
            ∙ dumped.flushed fd e
            ∙ sym (ap frame_bytes at)
            ∙ sym (content_hit os p.old.tag i pool hit)
        | inl e ↦ elim (Option-cases (find p.old.tag pool.cache.buffer_table_layer)) [
          | inl none_there ↦
              content_miss os p.old.tag loaded gone
              ∙ dumped.others p.old.tag (λ fd e'. cc)
              ∙ sym (content_miss os p.old.tag pool none_there)
          | inr (l, there) ↦
              absurd
                ((v.cached p.old.tag l there).nonzero (ap (λ (x : PageId). x.fd) (old.unused e)))
        ]
      ]

      content_other :
          (j : PageId)
          → same_page j k ≡ false
          → same_page j p.old.tag ≡ false
          → content os j loaded ≡ content os j pool
      content_other j ne ne' = elim (Option-cases (find j pool.cache.buffer_table_layer)) [
        | inl there ↦
            content_miss os j loaded (find_other j ne ne' ∙ there)
            ∙ dumped.others j (λ fd e. not_same (page_of fd f) j (λ x.
              let c = (old.owned fd e).cached in
              let hit : find j pool.cache.buffer_table_layer ≡ some i =
                ap (λ y. find y pool.cache.buffer_table_layer) (sym x) ∙ c in
              cc))
            ∙ sym (content_miss os j pool there)
        | inr (l, there) ↦
            content_hit os j l loaded (find_other j ne ne' ∙ there)
            ∙ ap frame_bytes
                (get_elem?-set_ne pool.frames i l new_frame (not_evicted j l there ne'))
            ∙ sym (content_hit os j l pool there)
      ]

      -- Every page holds what it did.
      pub loaded-SameContent : (j : PageId) → content os j loaded ≡ content os j pool
      loaded-SameContent j = elim (Bool-cases (same_page j k)) [
        | inl new ↦ let is : j ≡ k = (same_page_iff j k).0 new in rw is content_new
        | inr ne ↦ elim (Bool-cases (same_page j p.old.tag)) [
          | inr ne' ↦ content_other j ne ne'
          | inl gone ↦
              let is : j ≡ p.old.tag = (same_page_iff j p.old.tag).0 gone in
              subst (λ x. content os x loaded ≡ content os x pool) (sym is)
                (content_tag
                  (ap (λ x. find x c'.buffer_table_layer) (sym is) ∙ find_tag_of j ne gone))
        ]
      ]

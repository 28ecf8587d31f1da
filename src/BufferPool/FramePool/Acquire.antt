-- ===== src/BufferPool/FramePool/Acquire.antt =====
-- FramePool::acquire_frame: the page that it gives, and what it leaves of the others.
use simple_db.Base.{
  ℕ, zero, suc, ◌+◌, ◌%◌, ◌<◌, ◌≡◌, ◌≢◌, refl, sym, ap, ◌∙◌, Bool, true, not, List, [], ◌∷◌, none,
  some, inl, inr, ok, arith, eqb, eqb_iff, eqb_ℤ, eqb_ℤ_iff, length, get_elem?, get_elem?-lt,
  get_elem?-set_self, get_elem?-set_ne, set, find, pos, Bool-cases, Option-cases,
}
use mathlib.Core.Path.{subst}
use simple_db.BufferPool.Page.{page_size, PageId, page_eq}
use simple_db.BufferPool.File.{Os}
use simple_db.BufferPool.File.Stored.{LawfulOs, stored}
use simple_db.BufferPool.ClockCache.{BufferDescriptor, ClockCache, size_mod, write_descriptor, get}
use simple_db.BufferPool.ClockCache.Valid.{IsValid, write-IsValid}
use simple_db.BufferPool.FramePool.{Frame, FramePool, frame_found, retain_frame, acquire_frame}
use simple_db.BufferPool.FramePool.Coherent.{
  frame_bytes, IsCached, IsPool, content, content_hit, content_miss,
}
use simple_db.BufferPool.FramePool.Refresh.{
  with_count, Relocks, SameContent, recount-IsPool, recount-SameContent,
}
use simple_db.BufferPool.FramePool.Count.{retain_frame-Recounted}
use simple_db.Transform.Marshal.{Bytes}
use simple_db.BufferPool.FramePool.Place.{HasRoom, Placed, Counts, frame_loaded-Places}

module _ (os : Os) (lawful : LawfulOs os) where
  open os use {Disk}

  -- A page that a frame holds is found there.
  set_same : (fs : List Frame) (i : ℕ) (f : Frame) → get_elem? fs i ≡ some f → set fs i f ≡ fs
  set_same [] i f e = refl
  set_same (x ∷ fs) zero f e = cc
  set_same (x ∷ fs) (suc i) f e = ap (λ l. x ∷ l) (set_same fs i f e)

  -- The descriptor of a lookup that hits.
  abbrev used : BufferDescriptor PageId → BufferDescriptor PageId
  used d = record d { usage = (d.usage + 1) % size_mod }

  used-Relocks :
      (c : ClockCache PageId) (i : ℕ) (d : BufferDescriptor PageId) (b : Bool)
      → IsValid c
      → get_elem? c.buffer_descriptors_layer i ≡ some d
      → d.lock ≡ b
      → Relocks i b c (write_descriptor i (used d) c)
  used-Relocks c i d b v g locked = record {
    valid = write-IsValid i d (used d) c g refl v;
    table = refl;
    same_capacity = refl;
    here = λ d' e'.
        let is : d' ≡ used d = let n = now in cc in
        ap (λ (x : BufferDescriptor PageId). x.lock) is ∙ locked;
    descriptor = λ j d' e'. elim (Bool-cases (eqb i j)) [
      | inl here ↦
          let same : i ≡ j = ground arith in
          let e : get_elem? (set c.buffer_descriptors_layer i (used d)) i ≡ some d' =
            ap (get_elem? (set c.buffer_descriptors_layer i (used d))) same ∙ e' in
          let is : d' ≡ used d = let n = now in cc in
          (
            d,
            ap (get_elem? c.buffer_descriptors_layer) (sym same) ∙ g,
            ap (λ (x : BufferDescriptor PageId). x.tag) is,
            λ ne. absurd (ne same),
          )
      | inr there ↦ (
        d',
        sym (get_elem?-set_ne c.buffer_descriptors_layer i j (used d) (λ same. ground arith)) ∙ e',
        refl,
        λ ne. refl,
      )
    ];
  }
    where
      now : get_elem? (set c.buffer_descriptors_layer i (used d)) i ≡ some (used d)
      now =
          get_elem?-set_self c.buffer_descriptors_layer i (used d)
            (get_elem?-lt c.buffer_descriptors_layer i d g)

  -- The reference that the caller gets.
  retain-Placed :
      (k : PageId) (bytes : Bytes) (pool pool₁ : FramePool Disk) (i : ℕ)
      (p : Placed os lawful k bytes pool i pool₁)
      → p.frame.ref_count + 1 < size_mod
      → (pool₂ : FramePool Disk) × (retain_frame os i pool₁ ≡ ok pool₂)
        × (q : Placed os lawful k bytes pool i pool₂) × (q.frame.ref_count ≡ p.frame.ref_count + 1)
  retain-Placed k bytes pool pool₁ i p small =
      let (pool₂, done, r) = retain_frame-Recounted os pool₁ i p.frame p.coherent p.at small in
      let n = p.frame.ref_count + 1 in
      (
        pool₂,
        done,
        record {
          coherent = r.coherent;
          content = λ j. r.content j ∙ p.content j;
          cached = ap (λ t. find k t) r.table ∙ p.cached;
          frame = with_count n p.frame;
          at =
              ap (λ fs. get_elem? fs i) r.frames
              ∙ get_elem?-set_self pool₁.frames i (with_count n p.frame)
                  (get_elem?-lt pool₁.frames i p.frame p.at);
          holds = p.holds;
          others = λ j ne.
              ap (λ fs. get_elem? fs j) r.frames
              ∙ get_elem?-set_ne pool₁.frames i j (with_count n p.frame) ne
              ∙ p.others j ne;
        },
        refl,
      )

  -- The pool after a lookup that hits.
  abbrev looked_up : FramePool Disk → ℕ → BufferDescriptor PageId → FramePool Disk
  looked_up pool i d = record pool { cache = write_descriptor i (used d) pool.cache }

  looked_up-Placed :
      (pool : FramePool Disk) (k : PageId) (bytes : Bytes) (i : ℕ) (d : BufferDescriptor PageId)
      (v : IsPool os pool) (hit : find k pool.cache.buffer_table_layer ≡ some i)
      → get_elem? pool.cache.buffer_descriptors_layer i ≡ some d
      → content os k pool ≡ some bytes
      → (p : Placed os lawful k bytes pool i (looked_up pool i d)) × (p.frame
          ≡ (v.cached k i hit).frame)
  looked_up-Placed pool k bytes i d v hit g was =
      let o = v.cached k i hit in
      let f = o.frame in
      let old = v.frames i f d o.at g in
      let r = used-Relocks pool.cache i d (not (eqb f.ref_count 0)) v.valid g old.locked in
      let same = set_same pool.frames i f o.at in
      let c₁ = write_descriptor i (used d) pool.cache in
      let holds : some f.bytes ≡ some bytes =
        sym (ap frame_bytes o.at) ∙ sym (content_hit os k i pool hit) ∙ was in
      (
        record {
          coherent =
              subst (λ fs. IsPool os (record { frames = fs; cache = c₁; disk = pool.disk })) same
                (recount-IsPool os pool i f.ref_count f c₁ v o.at old.small r);
          content =
              subst
                (λ fs. SameContent os pool (record { frames = fs; cache = c₁; disk = pool.disk }))
                same (recount-SameContent os pool i f.ref_count f c₁ v o.at old.small r);
          cached = hit;
          frame = f;
          at = o.at;
          holds = cc;
          others = λ j ne. refl;
        },
        refl,
      )

  frame_found_lem :
      (pool : FramePool Disk) (k : PageId) (i : ℕ)
      → IsCached os k i pool
      → frame_found os k.fd k.page_index i pool ≡ ok (i, pool)
  unfolding frame_found
  frame_found_lem pool k i o =
      let page : eqb k.page_index k.page_index ≡ true =
        (eqb_iff k.page_index k.page_index).1 refl in
      let fd : eqb_ℤ k.fd k.fd ≡ true = (eqb_ℤ_iff k.fd k.fd).1 refl in
      rw (o.at, o.page, page, o.owner, fd)

  -- Acquiring a page of a file that is open gives a frame with the page's bytes, locked for the
  -- caller, and one reference more.
  abbrev pub Acquires : ℕ → PageId → Bytes → FramePool Disk → Type 0
  Acquires fuel k bytes pool =
      (i : ℕ) × (pool' : FramePool Disk) × (acquire_frame os fuel k.fd k.page_index pool
        ≡ ok (i, pool'))
      × (p : Placed os lawful k bytes pool i pool') × Counts os lawful 1 i pool p.frame

  acquire_hit :
      (fuel : ℕ) (pool : FramePool Disk) (k : PageId) (bytes : Bytes) (i : ℕ) (v : IsPool os pool)
      (hit : find k pool.cache.buffer_table_layer ≡ some i)
      → content os k pool ≡ some bytes
      → (v.cached k i hit).frame.ref_count + 1 < size_mod
      → Acquires fuel k bytes pool
  unfolding acquire_frame get
  acquire_hit fuel pool k bytes i v hit was small =
      let (d, g, t) = v.valid.mapped k i hit in
      let o = v.cached k i hit in
      let pool₁ = looked_up pool i d in
      let (p, same) = looked_up-Placed pool k bytes i d v hit g was in
      let found = frame_found_lem pool₁ k i (record {
        frame = o.frame;
        at = o.at;
        owner = o.owner;
        page = o.page;
        nonzero = o.nonzero;
      }) in
      let low : p.frame.ref_count + 1 < size_mod = rw same small in
      let (pool₂, kept, q, up) = retain-Placed k bytes pool pool₁ i p low in
      let up' : q.frame.ref_count ≡ o.frame.ref_count + 1 =
        rw up (ap (λ (f : Frame). f.ref_count + 1) same) in
      (i, pool₂, rw (get, hit, g, found, kept), q, (o.frame, o.at, up'))

  acquire_miss :
      (fuel : ℕ) (pool : FramePool Disk) (k : PageId) (bytes : Bytes)
      → IsPool os pool
      → find k pool.cache.buffer_table_layer ≡ none
      → k.fd ≢ pos 0
      → stored os k pool.disk ≡ some bytes
      → length bytes ≡ page_size
      → HasRoom fuel pool.cache
      → ((i : ℕ) (f : Frame) → get_elem? pool.frames i ≡ some f → f.ref_count + 1 < size_mod)
      → Acquires fuel k bytes pool
  unfolding acquire_frame get
  acquire_miss fuel pool k bytes v miss nonzero was full room small =
      let (i, pool₁, done, p, (g, at_g, same)) =
        frame_loaded-Places os lawful fuel pool k bytes v miss nonzero was full room in
      let low : p.frame.ref_count + 1 < size_mod = omega (arith, same, small i g at_g) in
      let (pool₂, kept, q, up) = retain-Placed k bytes pool pool₁ i p low in
      (i, pool₂, rw (get, miss, done, kept), q, (g, at_g, omega (arith, up, same)))

  -- In a coherent pool, acquiring a page never fails where it is cached, or where an unlocked frame
  -- is in reach of the sweep and the page is on the disk. The caller gets a frame that holds what
  -- the page held and has one reference more. Every page holds what it did, every other frame is as it was,
  -- and the pool is coherent again.
  pub acquire_frame-Acquires :
      (fuel : ℕ) (pool : FramePool Disk) (k : PageId) (bytes : Bytes)
      → IsPool os pool
      → k.fd ≢ pos 0
      → content os k pool ≡ some bytes
      → length bytes ≡ page_size
      → (find k pool.cache.buffer_table_layer ≡ none → HasRoom fuel pool.cache)
      → ((i : ℕ) (f : Frame) → get_elem? pool.frames i ≡ some f → f.ref_count + 1 < size_mod)
      → Acquires fuel k bytes pool
  acquire_frame-Acquires fuel pool k bytes v nonzero was full room small =
      elim (Option-cases (find k pool.cache.buffer_table_layer)) [
        | inl miss ↦
            acquire_miss fuel pool k bytes v miss nonzero (sym (content_miss os k pool miss) ∙ was)
              full (room miss) small
        | inr (i, hit) ↦
            let o = v.cached k i hit in
            acquire_hit fuel pool k bytes i v hit was (small i o.frame o.at)
      ]

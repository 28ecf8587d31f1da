-- ===== src/BufferPool/FramePool/Count.antt =====
-- FramePool's reference counts: retaining and releasing a frame.
use simple_db.Base.{
  ℕ, ◌+◌, ◌-◌, ◌%◌, ◌<◌, ◌≡◌, refl, ap, ◌∙◌, Bool, true, false, not, some, inl, inr, ok, arith, eqb,
  get_elem?, get_elem?-lt, get_elem?_of_lt, set, Bool-cases,
}
use simple_db.BufferPool.Page.{PageId, page_eq}
use simple_db.BufferPool.File.{Os}
use simple_db.BufferPool.ClockCache.{BufferDescriptor, ClockCache, size_mod}
use simple_db.BufferPool.ClockCache.Valid.{IsValid, lock-IsValid, unlock-IsValid, Locks}
use simple_db.BufferPool.FramePool.{Frame, FramePool, retain_frame, release_frame}
use simple_db.BufferPool.FramePool.Coherent.{IsPool}
use simple_db.BufferPool.FramePool.Refresh.{
  with_count, Relocks, recount, SameContent, recount-IsPool, recount-SameContent,
}

Locks-Relocks :
    (i : ℕ) (b : Bool) (c c' : ClockCache PageId)
    → IsValid c
    → IsValid c'
    → Locks i b c c'
    → Relocks i b c c'
Locks-Relocks i b c c' v v' l = record {
  valid = v';
  table = l.table;
  same_capacity = l.same_capacity;
  here = λ d' e'.
      let (d, e) = before i d' e' in
      let now = l.here d e in
      let same : d' ≡ record d { lock = b } = cc in
      ap (λ (x : BufferDescriptor PageId). x.lock) same;
  descriptor = λ j d' e'.
      let (d, e) = before j d' e' in
      elim (Bool-cases (eqb i j)) [
        | inl here ↦
            let same : i ≡ j = ground arith in
            let now = l.here d (ap (get_elem? c.buffer_descriptors_layer) same ∙ e) in
            let e'' : get_elem? c'.buffer_descriptors_layer i ≡ some d' =
              ap (get_elem? c'.buffer_descriptors_layer) same ∙ e' in
            let is : d' ≡ record d { lock = b } = cc in
            (d, e, ap (λ (x : BufferDescriptor PageId). x.tag) is, λ ne. absurd (ne same))
        | inr there ↦
            let now = l.others j (λ same. ground arith) in
            let is : d' ≡ d = cc in
            (
              d,
              e,
              ap (λ (x : BufferDescriptor PageId). x.tag) is,
              λ ne. ap (λ (x : BufferDescriptor PageId). x.lock) is,
            )
      ];
}
  where
    before :
        (j : ℕ) (d' : BufferDescriptor PageId)
        → get_elem? c'.buffer_descriptors_layer j ≡ some d'
        → (d : BufferDescriptor PageId) × (get_elem? c.buffer_descriptors_layer j ≡ some d)
    before j d' e' = get_elem?_of_lt c.buffer_descriptors_layer j (
        omega (
          arith,
          get_elem?-lt c'.buffer_descriptors_layer j d' e',
          v.place.sized,
          v'.place.sized,
          l.same_capacity,
        ))

Relocks-same :
    (i : ℕ) (b : Bool) (c : ClockCache PageId)
    → IsValid c
    → ((d : BufferDescriptor PageId) → get_elem? c.buffer_descriptors_layer i ≡ some d → d.lock ≡ b)
    → Relocks i b c c
Relocks-same i b c v locked = record {
  valid = v;
  table = refl;
  same_capacity = refl;
  here = locked;
  descriptor = λ j d e. (d, e, refl, λ ne. refl);
}

module _ (os : Os) where
  open os use {Disk}

  -- The pool after a call that gives frame `i` the count `n`.
  pub record Recounted (i n : ℕ) (f : Frame) (pool pool' : FramePool Disk) : Type 0 where
    pub coherent : IsPool os pool'
    pub content : SameContent os pool pool'
    pub frames : pool'.frames ≡ set pool.frames i (with_count n f)
    pub table : pool'.cache.buffer_table_layer ≡ pool.cache.buffer_table_layer

  recounted :
      (pool : FramePool Disk) (i n : ℕ) (f : Frame) (c' : ClockCache PageId)
      → IsPool os pool
      → get_elem? pool.frames i ≡ some f
      → n < size_mod
      → Relocks i (not (eqb n 0)) pool.cache c'
      → Recounted i n f pool (recount os i n f c' pool)
  recounted pool i n f c' v at small r = record {
    coherent = recount-IsPool os pool i n f c' v at small r;
    content = recount-SameContent os pool i n f c' v at small r;
    frames = refl;
    table = r.table;
  }

  in_capacity :
      (pool : FramePool Disk) (i : ℕ) (f : Frame)
      → IsPool os pool
      → get_elem? pool.frames i ≡ some f
      → i < pool.cache.capacity
  in_capacity pool i f v at = omega (arith, get_elem?-lt pool.frames i f at, v.sized)

  descriptor_at :
      (pool : FramePool Disk) (i : ℕ) (f : Frame)
      → IsPool os pool
      → get_elem? pool.frames i ≡ some f
      → (d : BufferDescriptor PageId) × (get_elem? pool.cache.buffer_descriptors_layer i ≡ some d)
  descriptor_at pool i f v at =
      get_elem?_of_lt pool.cache.buffer_descriptors_layer i
        (omega (arith, in_capacity pool i f v at, v.valid.place.sized))

  -- Releasing a frame that is referenced never fails: the count goes down, at 0 the frame is
  -- unlocked, the pool keeps its invariant and every page what it holds.
  pub release_frame-Recounted :
      (pool : FramePool Disk) (i : ℕ) (f : Frame)
      → IsPool os pool
      → get_elem? pool.frames i ≡ some f
      → 0 < f.ref_count
      → (pool' : FramePool Disk) × (release_frame os i pool ≡ ok pool')
        × Recounted i (f.ref_count - 1) f pool pool'
  unfolding release_frame
  release_frame-Recounted pool i f v at referenced =
      let (d, ed) = descriptor_at pool i f v at in
      let small = (v.frames i f d at ed).small in
      let wrap : (f.ref_count + (size_mod - 1)) % size_mod ≡ f.ref_count - 1 = omega arith in
      elim (Bool-cases (eqb (f.ref_count - 1) 0)) [
        | inl last ↦
            let (c', done, v', l) =
              unlock-IsValid i pool.cache v.valid (in_capacity pool i f v at) in
            let r : Relocks i (not (eqb (f.ref_count - 1) 0)) pool.cache c' =
              rw last (Locks-Relocks i false pool.cache c' v.valid v' l) in
            (
              recount os i (f.ref_count - 1) f c' pool,
              rw (at, wrap, last, done),
              recounted pool i (f.ref_count - 1) f c' v at (omega arith) r,
            )
        | inr more ↦
            let r : Relocks i (not (eqb (f.ref_count - 1) 0)) pool.cache pool.cache = rw more (
              Relocks-same i true pool.cache v.valid
                (λ d e. let locked = (v.frames i f d at e).locked in ground arith)) in
            (
              recount os i (f.ref_count - 1) f pool.cache pool,
              rw (at, wrap, more),
              recounted pool i (f.ref_count - 1) f pool.cache v at (omega arith) r,
            )
      ]

  -- Retaining a frame never fails below the largest count: the count goes up, from 0 the frame is
  -- locked, the pool keeps its invariant and every page what it holds.
  pub retain_frame-Recounted :
      (pool : FramePool Disk) (i : ℕ) (f : Frame)
      → IsPool os pool
      → get_elem? pool.frames i ≡ some f
      → f.ref_count + 1 < size_mod
      → (pool' : FramePool Disk) × (retain_frame os i pool ≡ ok pool')
        × Recounted i (f.ref_count + 1) f pool pool'
  unfolding retain_frame
  retain_frame-Recounted pool i f v at small =
      let wrap : (f.ref_count + 1) % size_mod ≡ f.ref_count + 1 = omega arith in
      let positive : not (eqb (f.ref_count + 1) 0) ≡ true = ground arith in
      elim (Bool-cases (eqb (f.ref_count + 1) 1)) [
        | inl first ↦
            let (c', done, v', l) = lock-IsValid i pool.cache v.valid (in_capacity pool i f v at) in
            let r : Relocks i (not (eqb (f.ref_count + 1) 0)) pool.cache c' =
              rw positive (Locks-Relocks i true pool.cache c' v.valid v' l) in
            (
              recount os i (f.ref_count + 1) f c' pool,
              rw (at, wrap, first, done),
              recounted pool i (f.ref_count + 1) f c' v at small r,
            )
        | inr more ↦
            let r : Relocks i (not (eqb (f.ref_count + 1) 0)) pool.cache pool.cache = rw positive (
              Relocks-same i true pool.cache v.valid
                (λ d e. let locked = (v.frames i f d at e).locked in ground arith)) in
            (
              recount os i (f.ref_count + 1) f pool.cache pool,
              rw (at, wrap, more),
              recounted pool i (f.ref_count + 1) f pool.cache v at small r,
            )
      ]

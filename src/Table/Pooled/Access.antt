-- ===== src/Table/Pooled/Access.antt =====
-- A table's access to one page through the pool.
use simple_db.Base.{
  ℕ, zero, suc, ◌-◌, ◌≤◌, ◌<◌, ◌≡◌, ◌≢◌, refl, sym, ap, ◌∙◌, inl, inr, List, [], ◌∷◌, Option, none,
  some, Result, ok, arith, ltb, ltb→lt, eqb, length, get_elem?, get_elem?-lt, get_elem?_of_lt,
  get_elem?-set_self, get_elem?-set_ne, find, Bool-cases, if◌then◌else◌,
}
use simple_db.BufferPool.Page.{page_size, FileFd, PageId, page_eq, page_of_parts}
use simple_db.BufferPool.File.{Os, get_page_count}
use simple_db.BufferPool.File.Stored.{LawfulOs}
use simple_db.BufferPool.ClockCache.{BufferDescriptor}
use simple_db.BufferPool.FramePool.{
  Frame, FramePool, get_page, release_frame, drop_page, get_data, set_data,
}
use simple_db.BufferPool.FramePool.Coherent.{IsPool}
use simple_db.BufferPool.FramePool.Coherent
use simple_db.BufferPool.FramePool.Refresh.{with_count}
use simple_db.BufferPool.FramePool.Count.{Recounted, release_frame-Recounted}
use simple_db.BufferPool.FramePool.Acquire.{Acquires, acquire_frame-Acquires}
use simple_db.BufferPool.FramePool.Place.{HasRoom, Placed}
use simple_db.BufferPool.FramePool.Write.{Rewritten, set_data-Rewritten}
use simple_db.Transform.Marshal.{Bytes}
use simple_db.Table.Pages.{Accessed}
use simple_db.Table.Pooled.Ready.{page_at, content, content-inside, IsIdle, IsReady, meaning}
use simple_db.Table.Pooled.{pooled, Opened, total_usage, sweep_rounds, access}

usage-total_usage :
    (ds : List (BufferDescriptor PageId)) (j : ℕ) (d : BufferDescriptor PageId)
    → get_elem? ds j ≡ some d
    → d.usage ≤ total_usage ds
usage-total_usage [] j d e = cc
usage-total_usage (x ∷ ds) zero d e = let same : x.usage ≡ d.usage = cc in omega arith
usage-total_usage (x ∷ ds) (suc j) d e = omega (arith, usage-total_usage ds j d e)

module _ (os : Os) where
  open os use {Disk}

  -- In a pool with no page in use the sweep finds a frame.
  IsIdle-HasRoom :
      (pool : FramePool Disk)
      → IsPool os pool
      → IsIdle os pool
      → HasRoom (sweep_rounds pool.cache) pool.cache
  IsIdle-HasRoom pool v idle =
      let c = pool.cache in
      let (d, e) =
        get_elem?_of_lt c.buffer_descriptors_layer c.cursor
          (omega (arith, v.valid.place.sized, v.valid.place.placed)) in
      let (f, at) =
        get_elem?_of_lt pool.frames c.cursor (omega (arith, v.sized, v.valid.place.placed)) in
      let locked = (v.frames c.cursor f d at e).locked in
      let unused = idle c.cursor f at in
      let le = usage-total_usage c.buffer_descriptors_layer c.cursor d e in
      (c.cursor, d, e, ground arith, grind arith)

  module _ (fd : FileFd) (world : PageId → Option Bytes) (lawful : LawfulOs os) (i : ℕ)
      (p : Opened Disk) (bytes bytes' : Bytes) (v : IsReady os fd world p)
      (was : content os i p ≡ some bytes) (full : length bytes' ≡ page_size) where
    inside : i < get_page_count p.file
    inside = elim (Bool-cases (ltb i (get_page_count p.file))) [
      | inl e ↦ ltb→lt i (get_page_count p.file) e
      | inr e ↦
          let gone =
            ap (λ b. if b then Coherent.content os (page_at os p i) p.frame_pool else none) e in
          cc
    ]

    held : Coherent.content os (page_at os p i) p.frame_pool ≡ some bytes
    held = sym (content-inside os i p inside) ∙ was

    held_full : length bytes ≡ page_size
    held_full =
        let (b, e, l) = v.pages i inside in
        let same : b ≡ bytes = let h = held in cc in rw (← same) l

    -- The page in its frame.
    acquired :
        Acquires os lawful (sweep_rounds p.frame_pool.cache) (page_at os p i) bytes p.frame_pool
    acquired =
        acquire_frame-Acquires os lawful (sweep_rounds p.frame_pool.cache) p.frame_pool
          (page_at os p i) bytes v.coherent v.nonzero held held_full
          (λ miss. IsIdle-HasRoom p.frame_pool v.coherent v.idle)
          (λ j f at. omega (arith, v.idle j f at))

    abbrev frame_index : ℕ
    frame_index = acquired.0

    abbrev placed : Placed os lawful (page_at os p i) bytes p.frame_pool frame_index acquired.1
    placed = acquired.3

    referenced_once : placed.frame.ref_count ≡ 1
    referenced_once = let (g, at, up) = acquired.4 in omega (arith, up, v.idle frame_index g at)

    abbrev filled : Frame
    filled = record placed.frame { bytes = bytes' }

    changed :
        (pool : FramePool Disk) × (set_data os
            (record { frame_index = frame_index })
            bytes'
            acquired.1
          ≡ ok pool)
        × Rewritten os frame_index placed.frame bytes' acquired.1 pool
    changed =
        set_data-Rewritten os acquired.1 frame_index placed.frame bytes' placed.coherent placed.at
          full (record { frame_index = frame_index }) refl

    filled_at : get_elem? changed.0.frames frame_index ≡ some filled
    filled_at =
        ap (λ fs. get_elem? fs frame_index) changed.2.frames
        ∙ get_elem?-set_self acquired.1.frames frame_index filled
            (get_elem?-lt acquired.1.frames frame_index placed.frame placed.at)

    dropped :
        (pool : FramePool Disk) × (release_frame os frame_index changed.0 ≡ ok pool)
        × Recounted os frame_index (placed.frame.ref_count - 1) filled changed.0 pool
    dropped =
        release_frame-Recounted os changed.0 frame_index filled changed.2.coherent filled_at
          (omega (arith, referenced_once))

    run :
        {A : Type 0} (f : Bytes → Result (A × Bytes)) (a : A)
        → f bytes ≡ ok (a, bytes')
        → access os i f p ≡ ok (a, record p { frame_pool = dropped.0 })
    unfolding access get_page get_data drop_page
    run f a e = rw (acquired.2, placed.at, placed.holds, e, changed.1, dropped.1)

    -- What the pages hold afterwards.
    content_here : Coherent.content os (page_at os p i) dropped.0 ≡ some bytes'
    content_here =
        dropped.2.content (page_at os p i) ∙ changed.2.here (page_at os p i) placed.cached

    other_frame :
        (k : PageId)
        → page_at os p i ≢ k
        → find k acquired.1.cache.buffer_table_layer ≢ some frame_index
    other_frame k ne e =
        let there = placed.coherent.cached k frame_index e in
        let here = placed.coherent.cached (page_at os p i) frame_index placed.cached in
        let same : there.frame ≡ here.frame = let a = there.at in let b = here.at in cc in
        let page = sym here.page ∙ ap (λ (f : Frame). f.page_index) (sym same) ∙ there.page in
        let owner = sym here.owner ∙ ap (λ (f : Frame). f.owner) (sym same) ∙ there.owner in
        let one : p.file.fd ≡ k.fd = cc in ne (page_of_parts (page_at os p i) k one page)

    content_other :
        (k : PageId)
        → page_at os p i ≢ k
        → Coherent.content os k dropped.0 ≡ Coherent.content os k p.frame_pool
    content_other k ne =
        dropped.2.content k ∙ changed.2.others k (other_frame k ne) ∙ placed.content k

    other_page : (j : ℕ) → i ≢ j → page_at os p i ≢ page_at os p j
    other_page j ne same = ne (ap (λ (k : PageId). k.page_index) same)

    -- No page is in use afterwards.
    frame_other :
        (j : ℕ) → frame_index ≢ j → get_elem? dropped.0.frames j ≡ get_elem? p.frame_pool.frames j
    frame_other j ne =
        ap (λ fs. get_elem? fs j) dropped.2.frames
        ∙ get_elem?-set_ne changed.0.frames frame_index j _ ne
        ∙ ap (λ fs. get_elem? fs j) changed.2.frames
        ∙ get_elem?-set_ne acquired.1.frames frame_index j filled ne
        ∙ placed.others j ne

    frame_here :
        get_elem? dropped.0.frames frame_index
        ≡ some (with_count (placed.frame.ref_count - 1) filled)
    frame_here =
        ap (λ fs. get_elem? fs frame_index) dropped.2.frames
        ∙ get_elem?-set_self changed.0.frames frame_index _
            (get_elem?-lt changed.0.frames frame_index filled filled_at)

    dropped-IsIdle : IsIdle os dropped.0
    dropped-IsIdle j f e = elim (Bool-cases (eqb frame_index j)) [
      | inr there ↦ v.idle j f (sym (frame_other j (λ same. ground arith)) ∙ e)
      | inl here ↦
          let same : frame_index ≡ j = ground arith in
          let e' : get_elem? dropped.0.frames frame_index ≡ some f =
            ap (get_elem? dropped.0.frames) same ∙ e in
          let is : f ≡ with_count (placed.frame.ref_count - 1) filled = let h = frame_here in cc in
          ap (λ (x : Frame). x.ref_count) is ∙ omega (arith, referenced_once)
    ]

    pages_kept :
        (j : ℕ)
        → j < get_page_count p.file
        → (b : Bytes) × (Coherent.content os (page_at os p j) dropped.0 ≡ some b)
          × (length b ≡ page_size)
    pages_kept j h = elim (Bool-cases (eqb i j)) [
      | inl here ↦
          let same : i ≡ j = ground arith in
          (
            bytes',
            ap (λ x. Coherent.content os (page_at os p x) dropped.0) (sym same) ∙ content_here,
            full,
          )
      | inr there ↦
          let (b, e, l) = v.pages j h in
          (b, content_other (page_at os p j) (other_page j (λ same. ground arith)) ∙ e, l)
    ]

    dropped-IsReady : IsReady os fd world (record p { frame_pool = dropped.0 })
    dropped-IsReady = record {
      coherent = dropped.2.coherent;
      idle = dropped-IsIdle;
      same_fd = v.same_fd;
      nonzero = v.nonzero;
      rest = λ k ne.
          content_other k (λ same. ne (sym v.same_fd ∙ ap (λ (x : PageId). x.fd) same))
          ∙ v.rest k ne;
      whole = v.whole;
      pages = pages_kept;
      behind = λ j h.
          content_other (page_at os p j) (other_page j (λ same. omega (arith, inside)))
          ∙ v.behind j h;
    }

    access-Accessed :
        Accessed (pooled os) (meaning os fd world) i bytes' p (record p { frame_pool = dropped.0 })
    access-Accessed = record {
      ready = dropped-IsReady;
      same_count = refl;
      here = content-inside os i (record p { frame_pool = dropped.0 }) inside ∙ content_here;
      others = λ j ne.
          ap (λ o. if ltb j (get_page_count p.file) then o else none)
            (content_other (page_at os p j) (other_page j ne));
    }

  -- An access to a page of the table's file never fails where the client's work on the bytes does
  -- not. It gives the client's answer, changes that page alone, and leaves no page in use.
  pub access_lem :
      (fd : FileFd) (world : PageId → Option Bytes)
      → LawfulOs os
      → {A : Type 0} (i : ℕ) (f : Bytes → Result (A × Bytes)) (p : Opened Disk)
        (bytes bytes' : Bytes) (a : A)
      → IsReady os fd world p
      → content os i p ≡ some bytes
      → f bytes ≡ ok (a, bytes')
      → length bytes' ≡ page_size
      → (p' : Opened Disk) × (access os i f p ≡ ok (a, p'))
        × Accessed (pooled os) (meaning os fd world) i bytes' p p'
  access_lem fd world lawful i f p bytes bytes' a v was e full = (
    record p { frame_pool = (dropped fd world lawful i p bytes bytes' v was full).0 },
    run fd world lawful i p bytes bytes' v was full f a e,
    access-Accessed fd world lawful i p bytes bytes' v was full,
  )

-- ===== src/Table/Pooled/Alloc.antt =====
-- A page more at the end of a table's file.
use simple_db.Base.{
  [], ℕ, suc, ◌+◌, ◌*◌, ◌/◌, ◌<◌, ◌≡◌, ◌≢◌, sym, ap, ◌∙◌, inl, inr, Option, none, some, ok, arith,
  ltb, ltb→lt, eqb, length, length-replicate, find, pos, eqb_ℤ, eqb_ℤ_iff, Bool-cases, Option-cases,
}
use mathlib.Core.Path.{subst}
use simple_db.BufferPool.Page.{page_size, FileFd, PageId, page_eq}
use simple_db.BufferPool.File.{Os, File, get_page_count, alloc}
use simple_db.BufferPool.File
use simple_db.BufferPool.File.Stored.{LawfulOs, Fallocated, stored}
use simple_db.BufferPool.FramePool.{FramePool}
use simple_db.BufferPool.FramePool.Coherent.{
  IsPool, IsFrame, IsCached, frame_bytes, content_hit, content_miss,
}
use simple_db.BufferPool.FramePool.Coherent
use simple_db.BufferPool.FramePool.Redisk.{cached-OnDisk, redisk-IsPool, redisk-content}
use simple_db.Transform.Marshal.{Bytes}
use simple_db.Table.FixedTablePage.{zeros}
use simple_db.Table.Pages.{Allocated, LawfulPages}
use simple_db.Table.Pooled.Ready.{page_at, content-inside, IsReady, meaning}
use simple_db.Table.Pooled.Access.{access_lem}
use simple_db.Table.Pooled.{pooled, Opened, alloc_page}

module _ (os : Os) where
  open os use {Disk, fallocate, pread}

  -- A page that a frame holds is a whole one.
  short_miss :
      (pool : FramePool Disk) (k : PageId) (bytes : Bytes)
      → IsPool os pool
      → Coherent.content os k pool ≡ some bytes
      → length bytes < page_size
      → find k pool.cache.buffer_table_layer ≡ none
  short_miss pool k bytes v e short = elim (Option-cases (find k pool.cache.buffer_table_layer)) [
    | inl miss ↦ miss
    | inr (j, hit) ↦
        let (b, eb, full, _) = cached-OnDisk os pool k j v hit in
        let same : b ≡ bytes = cc in absurd (omega (arith, ap length same, full, short))
  ]

  module _ (fd : FileFd) (world : PageId → Option Bytes) (lawful : LawfulOs os) (p : Opened Disk)
      (v : IsReady os fd world p) where
    abbrev count : ℕ
    count = get_page_count p.file

    -- The page that is new.
    abbrev last : PageId
    last = page_at os p count

    last_miss : find last p.frame_pool.cache.buffer_table_layer ≡ none
    last_miss =
        short_miss p.frame_pool last [] v.coherent (v.behind count (omega arith)) (omega arith)

    grown :
        (disk : Disk) × (fallocate p.file.fd p.file.size page_size p.frame_pool.disk
          ≡ (pos 0, disk))
        × Fallocated os p.file.fd page_size p.file.size p.frame_pool.disk disk
    grown =
        let e = v.behind count (omega arith) in
        lawful.fallocate_lem p.file.fd page_size [] p.file.size p.frame_pool.disk
          (rw v.whole (sym (content_miss os last p.frame_pool last_miss) ∙ e)) (omega arith)

    abbrev disk : Disk
    disk = grown.0

    abbrev file : File
    file = record p.file { size = p.file.size + page_size }

    abbrev pool : FramePool Disk
    pool = record p.frame_pool { disk = disk }

    count_grown : get_page_count file ≡ suc count
    unfolding get_page_count
    count_grown = omega arith

    stored_behind :
        (i : ℕ)
        → count < i
        → stored os (page_at os p i) disk ≡ stored os (page_at os p i) p.frame_pool.disk
    stored_behind i h =
        grown.2.elsewhere p.file.fd page_size (i * page_size) (inr (omega (arith, v.whole)))

    -- Another page of the table's file.
    stored_kept_own :
        (i : ℕ) (b : Bytes)
        → count ≢ i
        → stored os (page_at os p i) p.frame_pool.disk ≡ some b
        → length b ≡ page_size
        → stored os (page_at os p i) disk ≡ some b
    stored_kept_own i b ne e l = elim (Bool-cases (ltb i count)) [
      | inl before ↦
          let low : i < count = ltb→lt i count before in
          grown.2.before page_size (i * page_size) b (omega (arith, v.whole)) e l
      | inr behind ↦ stored_behind i (ground arith) ∙ e
    ]

    stored_kept :
        (k : PageId) (b : Bytes)
        → last ≢ k
        → stored os k p.frame_pool.disk ≡ some b
        → length b ≡ page_size
        → stored os k disk ≡ some b
    stored_kept k b ne e l = elim (Bool-cases (eqb_ℤ p.file.fd k.fd)) [
      | inr other ↦
          grown.2.elsewhere k.fd page_size (k.page_index * page_size)
            (inl (λ same. ground (arith, (eqb_ℤ_iff p.file.fd k.fd).1 same)))
          ∙ e
      | inl own ↦
          let same : p.file.fd ≡ k.fd = (eqb_ℤ_iff p.file.fd k.fd).0 own in
          let is : page_at os p k.page_index ≡ k = cc in
          subst (λ x. stored os x disk ≡ some b) is
            (stored_kept_own k.page_index b (λ at. ne (ap (page_at os p) at ∙ is))
              (ap (λ x. stored os x p.frame_pool.disk) is ∙ e) l)
    ]

    pool-IsPool : IsPool os pool
    pool-IsPool = redisk-IsPool os p.frame_pool disk v.coherent (λ k j hit on_disk.
        let (b, e, l) = on_disk in
        (
          b,
          stored_kept k b
              (λ same.
                let gone : find k p.frame_pool.cache.buffer_table_layer ≡ none =
                  ap (λ x. find x p.frame_pool.cache.buffer_table_layer) (sym same) ∙ last_miss in
                cc)
              e l,
          l,
        ))

    content_kept :
        (k : PageId) (b : Bytes)
        → last ≢ k
        → Coherent.content os k p.frame_pool ≡ some b
        → length b ≡ page_size
        → Coherent.content os k pool ≡ some b
    content_kept k b ne e l =
        redisk-content os p.frame_pool disk k (λ miss.
          let on_disk = sym (content_miss os k p.frame_pool miss) ∙ e in
          stored_kept k b ne on_disk l ∙ sym on_disk)
        ∙ e

    content_new : Coherent.content os last pool ≡ some (zeros page_size)
    content_new =
        content_miss os last pool last_miss
        ∙ ap (λ n. pread p.file.fd page_size n disk) (sym v.whole)
        ∙ grown.2.zeroed

    content_elsewhere :
        (k : PageId) → fd ≢ k.fd → Coherent.content os k pool ≡ Coherent.content os k p.frame_pool
    content_elsewhere k ne = redisk-content os p.frame_pool disk k (λ miss.
        grown.2.elsewhere k.fd page_size (k.page_index * page_size)
          (inl (λ same. ne (sym v.same_fd ∙ same))))

    abbrev opened : Opened Disk
    opened = record { file = file; frame_pool = pool }

    behind_kept : (i : ℕ) → count < i → Coherent.content os (page_at os p i) pool ≡ some []
    behind_kept i h =
        redisk-content os p.frame_pool disk (page_at os p i) (λ miss. stored_behind i h)
        ∙ v.behind i (omega arith)

    pages_kept :
        (i : ℕ)
        → i < suc count
        → (b : Bytes) × (Coherent.content os (page_at os p i) pool ≡ some b)
          × (length b ≡ page_size)
    pages_kept i h = elim (Bool-cases (eqb count i)) [
      | inl new ↦
          let same : count ≡ i = ground arith in
          (
            zeros page_size,
            ap (λ x. Coherent.content os (page_at os p x) pool) (sym same) ∙ content_new,
            length-replicate {A = ℕ} page_size 0,
          )
      | inr old ↦
          let (b, e, l) = v.pages i (ground arith) in
          (
            b,
            content_kept (page_at os p i) b
                (λ same. ground (arith, ap (λ (k : PageId). k.page_index) same)) e l,
            l,
          )
    ]

    opened-IsReady : IsReady os fd world opened
    opened-IsReady = record {
      coherent = pool-IsPool;
      idle = v.idle;
      nonzero = v.nonzero;
      same_fd = v.same_fd;
      rest = λ k ne. content_elsewhere k ne ∙ v.rest k ne;
      whole = omega (arith, count_grown, v.whole);
      pages = λ i h. pages_kept i (omega (arith, count_grown));
      behind = λ i h. behind_kept i (omega (arith, count_grown));
    }

    opened-Allocated : Allocated (pooled os) (meaning os fd world) p opened
    opened-Allocated = record {
      ready = opened-IsReady;
      count = count_grown;
      fresh = content-inside os count opened (omega (arith, count_grown)) ∙ content_new;
      others = λ i h.
          let (b, e, l) = v.pages i h in
          content-inside os i opened (omega (arith, count_grown))
          ∙ content_kept (page_at os p i) b
              (λ same. omega (arith, ap (λ (k : PageId). k.page_index) same)) e l
          ∙ sym (content-inside os i p h ∙ e);
    }

    index_lem : p.file.size / page_size ≡ count
    index_lem = omega (arith, v.whole)

    -- The file of a table grows by a page of zeros behind the last one, and no other page changes.
    pub alloc_page_lem :
        (p' : Opened Disk) × (alloc_page os p ≡ ok (count, p'))
        × Allocated (pooled os) (meaning os fd world) p p'
    unfolding alloc_page File.alloc_page alloc
    alloc_page_lem = (opened, rw (grown.1, index_lem), opened-Allocated)

-- The files and the pool are a lawful implementation of the interface that a table uses.
pub pooled-LawfulPages :
    (os : Os) (fd : FileFd) (world : PageId → Option Bytes)
    → LawfulOs os
    → LawfulPages (pooled os) (meaning os fd world)
pooled-LawfulPages os fd world lawful = record {
  access_lem = access_lem os fd world lawful;
  alloc_page_lem = alloc_page_lem os fd world lawful;
}

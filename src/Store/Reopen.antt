-- ===== src/Store/Reopen.antt =====
-- Store::connect_table with a name that an earlier store has left in the file system.
use simple_db.Base.{
  ℕ, ◌*◌, ◌<◌, ◌≡◌, ◌≢◌, refl, sym, ap, ◌∙◌, true, [], some, ok, arith, length, pos, find,
}
use Prim.Native.String.{String}
use simple_db.BufferPool.Page.{page_size, FileFd, PageId, page_eq}
use simple_db.BufferPool.File.{
  Os, existing, File, get_page_count, open_file, open_with, discover_size,
}
use simple_db.BufferPool.File.Stored.{LawfulOs, stored, OnDisk}
use simple_db.BufferPool.FramePool.{Frame, FramePool, make_frame_pool, destroy}
use simple_db.BufferPool.FramePool.Coherent.{
  content_miss, get_elem?-new_frames, make_frame_pool-IsPool,
}
use simple_db.BufferPool.FramePool.Flush.{destroy-stored}
use simple_db.Table.Schema.{Schema}
use simple_db.Table.Table.{Table}
use simple_db.Table.Table
use simple_db.Table.Table.View.{View}
use simple_db.Table.Pooled.{Opened, pooled}
use simple_db.Table.Pooled.Ready.{page_at, content-inside, IsIdle, IsReady}
use simple_db.Transform.Marshal.{Bytes}
use simple_db.Transform.PageProvider.{make_fixed_page_provider}
use simple_db.Store.{FileSystem, Store, make_store, open_or_create, connect_table}
use simple_db.Store.Served.{contents, fd_of, IsServed}

module _ (os : Os) (fs : FileSystem os.Disk) where
  open os use {Disk, open_path, fstat, pread}

  -- The file that had the descriptor `old` is open with another descriptor. Its size is that of the
  -- pages that it has, when it has no bytes behind them.
  pub record Reopened (old fd : FileFd) (disk disk' : Disk) : Type 0 where
    pub nonzero : fd ≢ pos 0
    pub same : (n offset : ℕ) → pread fd n offset disk' ≡ pread old n offset disk
    pub size :
        (n : ℕ)
        → ((i : ℕ) → i < n → OnDisk os (record { fd = old; page_index = i }) disk)
        → stored os (record { fd = old; page_index = n }) disk ≡ some []
        → fstat fd disk' ≡ some (n * page_size)

  -- The path is that of the file with the descriptor `old`.
  pub record IsNamed (path : String) (old : FileFd) (disk : Disk) : Type 0 where
    pub there : fs.exists path disk ≡ true
    pub fd : FileFd
    pub disk' : Disk
    pub opened : open_path path existing disk ≡ some (fd, disk')
    pub reopened : Reopened old fd disk disk'

  make_frame_pool-IsIdle :
      (n : ℕ) (bytes : ℕ → Bytes) (disk : Disk) → IsIdle os (make_frame_pool os n bytes disk)
  make_frame_pool-IsIdle n bytes disk i f e =
      let (k, is) = get_elem?-new_frames bytes n 0 i f e in ap (λ (x : Frame). x.ref_count) is

  module _ (frames : ℕ) (bytes : ℕ → Bytes) (some_frames : 0 < frames)
      (full : (i : ℕ) → length (bytes i) ≡ page_size) (schema : Schema) (s : Store Disk)
      (t : Table (Opened Disk)) (view : View) (v : IsServed os schema s t view) (disk : Disk)
      (flushed : (k : PageId) → stored os k disk ≡ contents os s.buffer_pool k) (path : String)
      (named : IsNamed path (fd_of t) disk) where
    abbrev count : ℕ
    count = get_page_count t.pool.file

    abbrev file : File
    file = record { fd = named.fd; size = count * page_size }

    abbrev pool : FramePool Disk
    pool = make_frame_pool os frames bytes named.disk'

    abbrev opened : Opened Disk
    opened = record { file = file; frame_pool = pool }

    pages_there : (i : ℕ) → i < count → OnDisk os (record { fd = fd_of t; page_index = i }) disk
    pages_there i h = let (b, e, l) = v.ready.pages i h in (b, flushed _ ∙ e, l)

    sized : fstat named.fd named.disk' ≡ some (count * page_size)
    sized = named.reopened.size count pages_there (flushed _ ∙ v.ready.behind count (omega arith))

    count_same : get_page_count file ≡ count
    unfolding get_page_count
    count_same = omega arith

    -- A page of the file, as the new pool reads it.
    content_same :
        (i : ℕ)
        → contents os pool (page_at os opened i) ≡ contents os s.buffer_pool (page_at os t.pool i)
    unfolding find
    content_same i =
        content_miss os (page_at os opened i) pool refl
        ∙ named.reopened.same page_size (i * page_size)
        ∙ flushed (page_at os t.pool i)

    opened-IsReady : IsReady os named.fd (contents os pool) opened
    opened-IsReady = record {
      coherent = make_frame_pool-IsPool os frames bytes named.disk' some_frames full;
      idle = make_frame_pool-IsIdle frames bytes named.disk';
      same_fd = refl;
      nonzero = named.reopened.nonzero;
      whole = omega (arith, count_same);
      pages = λ i h.
          let (b, e, l) = v.ready.pages i (omega (arith, count_same)) in (b, content_same i ∙ e, l);
      behind = λ i h. content_same i ∙ v.ready.behind i (omega (arith, count_same));
      rest = λ k ne. refl;
    }

    abbrev new_table : Table (Opened Disk)
    new_table = Table.create (pooled os) opened (make_fixed_page_provider schema)

    abbrev new_store : String → Store Disk
    new_store dir = record { buffer_pool = pool; path = dir }

    new_table-IsServed : (dir : String) → IsServed os schema (new_store dir) new_table view
    new_table-IsServed dir = record {
      ready = opened-IsReady;
      same_marshal = refl;
      current = omega arith;
      pages = λ i h.
          let old : i < count = omega (arith, count_same) in
          let (b, e, rep) = v.pages i old in
          (
            b,
            content-inside os i opened h
                ∙ content_same i
                ∙ sym (content-inside os i (record t.pool { frame_pool = s.buffer_pool }) old)
                ∙ e,
            rep,
          );
    }

  -- A store has a table, and its pool is destroyed. A new store that connects to the table's name
  -- never fails, and its table has the pages of the old one.
  pub connect_table-destroy :
      LawfulOs os
      → (frames : ℕ) (bytes : ℕ → Bytes) (dir name : String) (schema : Schema) (s : Store Disk)
        (t : Table (Opened Disk)) (view : View) (left : FramePool Disk)
      → 0 < frames
      → ((i : ℕ) → length (bytes i) ≡ page_size)
      → IsServed os schema s t view
      → destroy os s.buffer_pool ≡ ok left
      → IsNamed (fs.join dir name) (fd_of t) left.disk
      → (t' : Table (Opened Disk)) × (s' : Store Disk) × (connect_table os fs name schema
            (make_store os fs frames bytes dir left.disk)
          ≡ ok (t', s'))
        × IsServed os schema s' t' view
        × (get_page_count t'.pool.file ≡ get_page_count t.pool.file)
  unfolding connect_table open_or_create open_file open_with discover_size
  connect_table-destroy lawful frames bytes dir name schema s t view left some_frames full v run
        named =
      let (left', run', kept) = destroy-stored os lawful s.buffer_pool v.ready.coherent in
      let same : left' ≡ left = cc in
      let flushed : (k : PageId) → stored os k left.disk ≡ contents os s.buffer_pool k =
        rw (← same) kept in
      let size =
        sized frames bytes some_frames full schema s t view v left.disk flushed (fs.join dir name)
          named in
      (
        new_table frames bytes some_frames full schema s t view v left.disk flushed
            (fs.join dir name) named,
        new_store frames bytes some_frames full schema s t view v left.disk flushed
            (fs.join dir name) named dir,
        rw (named.there, named.opened, size),
        new_table-IsServed frames bytes some_frames full schema s t view v left.disk flushed
            (fs.join dir name) named dir,
        count_same frames bytes some_frames full schema s t view v left.disk flushed
            (fs.join dir name) named,
      )

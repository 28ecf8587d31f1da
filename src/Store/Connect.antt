-- ===== src/Store/Connect.antt =====
-- Store::connect_table with a name that the store does not have yet.
use simple_db.Base.{
  ℕ, ◌*◌, ◌<◌, ◌≡◌, ◌≢◌, refl, ap, ◌∙◌, false, [], none, some, inl, inr, ok, arith, length, pos,
  find, Option-cases, Option, err, runtime_error, invalid_argument,
}
use Prim.Native.String.{String}
use simple_db.BufferPool.Page.{page_size, FileFd, PageId, page_eq}
use simple_db.BufferPool.File.{
  Os, create_new, get_page_count, create_file, open_with, discover_size,
}
use simple_db.BufferPool.FramePool.{FramePool}
use simple_db.BufferPool.FramePool.Coherent.{IsPool, content_miss}
use simple_db.BufferPool.FramePool.Redisk.{redisk, cached-OnDisk, redisk-IsPool, redisk-content}
use simple_db.Table.Schema.{Schema}
use simple_db.Table.Table.{Table}
use simple_db.Table.Table
use simple_db.Transform.PageProvider.{make_fixed_page_provider}
use simple_db.Table.Pooled.{Opened, pooled}
use simple_db.Table.Pooled.Ready.{IsIdle}
use simple_db.Transform.Marshal.{Bytes}
use simple_db.Store.{FileSystem, Store, exists, open_or_create, connect_table}
use simple_db.Store.Served.{fd_of, IsServed, Changed}

module _ (os : Os) (fs : FileSystem os.Disk) where
  open os use {Disk, open_path, fstat, pread}

  -- The descriptor is a new one, which nothing could be read from, and its file is empty.
  pub record Created (fd : FileFd) (disk disk' : Disk) : Type 0 where
    pub nonzero : fd ≢ pos 0
    pub unknown : (n offset : ℕ) (bytes : Bytes) → pread fd n offset disk ≡ some bytes → bytes ≡ []
    pub size : (n : ℕ) → fstat fd disk' ≡ some n → n ≡ 0
    pub empty : (n offset : ℕ) → pread fd n offset disk' ≡ some []
    pub others :
        (fd' : FileFd) (n offset : ℕ)
        → fd ≢ fd'
        → pread fd' n offset disk' ≡ pread fd' n offset disk

  -- What open(2) with O_CREAT | O_EXCL has done when it succeeds on a path that does not exist, in a
  -- process that has its standard input.
  pub record LawfulFileSystem : Type 0 where
    pub create_lem :
        (path : String) (disk : Disk) (fd : FileFd) (disk' : Disk)
        → fs.exists path disk ≡ false
        → open_path path create_new disk ≡ some (fd, disk')
        → Created fd disk disk'

  module _ (s : Store Disk) (v : IsPool os s.buffer_pool) (idle : IsIdle os s.buffer_pool)
      (fd : FileFd) (disk : Disk) (c : Created fd s.buffer_pool.disk disk) where
    abbrev pool : FramePool Disk
    pool = redisk os s.buffer_pool disk

    -- No frame has a page of the new file.
    not_cached : (k : PageId) → fd ≡ k.fd → find k s.buffer_pool.cache.buffer_table_layer ≡ none
    not_cached k same = elim (Option-cases (find k s.buffer_pool.cache.buffer_table_layer)) [
      | inl miss ↦ miss
      | inr (i, hit) ↦
          let (_, _, _, (b, e, l)) = cached-OnDisk os s.buffer_pool k i v hit in
          let gone : b ≡ [] =
            c.unknown page_size (k.page_index * page_size) b (
              ap (λ x. pread x page_size (k.page_index * page_size) s.buffer_pool.disk) same ∙ e) in
          absurd (omega (arith, l, ap length gone))
    ]

    pool-IsPool : IsPool os pool
    pool-IsPool = redisk-IsPool os s.buffer_pool disk v (λ k i hit on_disk.
        let (b, e, l) = on_disk in
        (
          b,
          c.others k.fd page_size (k.page_index * page_size)
                (λ same. let miss = not_cached k same in cc)
              ∙ e,
          l,
        ))

    pub pool-Changed : Changed os fd s.buffer_pool pool
    pool-Changed = record {
      coherent = pool-IsPool;
      idle = idle;
      others = λ k ne.
          redisk-content os s.buffer_pool disk k
            (λ miss. c.others k.fd page_size (k.page_index * page_size) ne);
    }

    no_pages : get_page_count (record { fd = fd; size = 0 }) ≡ 0
    unfolding get_page_count
    no_pages = refl

    no_page : (i : ℕ) → i < get_page_count (record { fd = fd; size = 0 }) → ⊥
    no_page i h = omega (arith, no_pages)

    abbrev pub new_table : Schema → Table (Opened Disk)
    new_table schema =
        Table.create (pooled os) (record { file = record { fd = fd; size = 0 }; frame_pool = pool })
          (make_fixed_page_provider schema)

    abbrev pub new_store : Store Disk
    new_store = record s { buffer_pool = pool }

    pub new_table-IsServed :
        (schema : Schema) → IsServed os schema new_store (new_table schema) (λ i. [])
    new_table-IsServed schema = record {
      ready = record {
        coherent = pool-IsPool;
        idle = idle;
        same_fd = refl;
        nonzero = c.nonzero;
        whole = omega (arith, no_pages);
        pages = λ i h. absurd (no_page i h);
        behind =
            λ i h. content_miss os _ pool (not_cached _ refl) ∙ c.empty page_size (i * page_size);
        rest = λ k ne. refl;
      };
      same_marshal = refl;
      current = omega arith;
      pages = λ i h. absurd (no_page i h);
    }

  -- What a call on a name that is not there comes to, by the answer of fstat(2) for the new file.
  abbrev Sizes : String → Schema → Store Disk → FileFd → Option ℕ → Type 0
  Sizes name schema s fd none = connect_table os fs name schema s ≡ err invalid_argument
  Sizes name schema s fd (some size) =
      (t : Table (Opened Disk)) × (s' : Store Disk) × (connect_table os fs name schema s
        ≡ ok (t, s'))
      × (fd_of t ≡ fd)
      × IsServed os schema s' t (λ i. [])
      × Changed os fd s.buffer_pool s'.buffer_pool

  -- The same, by the answer of open(2).
  abbrev pub Connects : String → Schema → Store Disk → Option (FileFd × Disk) → Type 0
  Connects name schema s none = connect_table os fs name schema s ≡ err runtime_error
  Connects name schema s (some (fd, disk)) = Sizes name schema s fd (fstat fd disk)

  sizes :
      (name : String) (schema : Schema) (s : Store Disk) (v : IsPool os s.buffer_pool)
      (idle : IsIdle os s.buffer_pool) (fd : FileFd) (disk : Disk)
      → exists os fs name s ≡ false
      → open_path (fs.join s.path name) create_new s.buffer_pool.disk ≡ some (fd, disk)
      → Created fd s.buffer_pool.disk disk
      → (o : Option ℕ) → fstat fd disk ≡ o
      → Sizes name schema s fd o
  unfolding connect_table open_or_create exists create_file open_with discover_size
  sizes name schema s v idle fd disk new made c none unknown = rw (new, made, unknown)
  sizes name schema s v idle fd disk new made c (some size) known =
      let empty_file : fstat fd disk ≡ some 0 = known ∙ ap some (c.size size known) in
      (
        new_table s v idle fd disk c schema,
        new_store s v idle fd disk c,
        rw (new, made, empty_file),
        refl,
        new_table-IsServed s v idle fd disk c schema,
        pool-Changed s v idle fd disk c,
      )

  connects :
      LawfulFileSystem
      → (name : String) (schema : Schema) (s : Store Disk) → IsPool os s.buffer_pool
      → IsIdle os s.buffer_pool
      → exists os fs name s ≡ false
      → (o : Option (FileFd × Disk))
      → open_path (fs.join s.path name) create_new s.buffer_pool.disk ≡ o
      → Connects name schema s o
  unfolding connect_table open_or_create exists create_file open_with
  connects lawful name schema s v idle new none refused = rw (new, refused)
  connects lawful name schema s v idle new (some (fd, disk)) made =
      let c = lawful.create_lem (fs.join s.path name) s.buffer_pool.disk fd disk new made in
      sizes name schema s v idle fd disk new made c (fstat fd disk) refl

  -- A call on a name that is not there throws a runtime_error if open(2) cannot create the file, and
  -- an invalid_argument if fstat(2) then fails. Otherwise it gives an empty table on the descriptor that
  -- open(2) answers, in a store whose pool is coherent and idle, and no page of another file changes.
  pub connect_table-IsServed :
      LawfulFileSystem
      → (name : String) (schema : Schema) (s : Store Disk) → IsPool os s.buffer_pool
      → IsIdle os s.buffer_pool
      → exists os fs name s ≡ false
      → Connects name schema s (open_path (fs.join s.path name) create_new s.buffer_pool.disk)
  connect_table-IsServed lawful name schema s v idle new =
      connects lawful name schema s v idle new _ refl

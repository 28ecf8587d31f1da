-- ===== src/Store.antt =====
-- src/store/store.cpp: tables by name, which share one buffer pool. The calls of std::filesystem are
-- parameters.
pub mod Served
pub mod Connect
pub mod Rows
pub mod Reopen
pub mod Durable
pub mod Typed
use simple_db.Base.{ℕ, Bool, Result, ok, ◌>>=◌, if◌then◌else◌}
use Prim.Native.String.{String}
use simple_db.BufferPool.File.{Os, File, create_file, open_file}
use simple_db.BufferPool.FramePool.{FramePool, make_frame_pool}
use simple_db.Table.Schema.{Schema}
use simple_db.Table.Row.{Row, RowId}
use simple_db.Table.Table.{Table}
use simple_db.Table.Table
use simple_db.Table.Pooled.{Opened, pooled}
use simple_db.Transform.Marshal.{Bytes}
use simple_db.Transform.PageProvider.{make_fixed_page_provider}

-- `join` is the operator / of a path.
pub record FileSystem (Disk : Type 0) : Type 0 where
  pub exists : String → Disk → Bool
  pub remove : String → Disk → Disk
  pub join : String → String → String

pub record Store (Disk : Type 0) : Type 0 where
  pub buffer_pool : FramePool Disk
  pub path : String

module _ (os : Os) (fs : FileSystem os.Disk) where
  open os use {Disk}

  abbrev pub make_store : ℕ → (ℕ → Bytes) → String → Disk → Store Disk
  make_store frame_count bytes path disk = record {
    buffer_pool = make_frame_pool os frame_count bytes disk;
    path = path;
  }

  unfoldable pub exists : String → Store Disk → Bool
  exists name s = fs.exists (fs.join s.path name) s.buffer_pool.disk

  unfoldable pub open_or_create : String → Disk → Result (File × Disk)
  open_or_create path disk =
      if fs.exists path disk then open_file os path disk else create_file os path disk

  -- The pool of the table is that of the store.
  unfoldable pub connect_table :
      String → Schema → Store Disk → Result (Table (Opened Disk) × Store Disk)
  unfolding open_or_create
  connect_table name schema s = do
    (file, disk) ← open_or_create (fs.join s.path name) s.buffer_pool.disk
    let pool : FramePool Disk = record s.buffer_pool { disk = disk }
    let opened : Opened Disk = record { file = file; frame_pool = pool }
    ok (
      Table.create (pooled os) opened (make_fixed_page_provider schema),
      record s { buffer_pool = pool },
    )

  unfoldable pub drop : String → Store Disk → Store Disk
  drop name s = record s {
    buffer_pool = record s.buffer_pool {
      disk = fs.remove (fs.join s.path name) s.buffer_pool.disk;
    };
  }

module _ {Disk : Type 0} where
  -- A table has a pointer to the pool, which other tables may have used since.
  abbrev pub lend : Store Disk → Table (Opened Disk) → Table (Opened Disk)
  lend s t = record t { pool = record t.pool { frame_pool = s.buffer_pool } }

  abbrev pub take_back : Store Disk → Table (Opened Disk) → Store Disk
  take_back s t = record s { buffer_pool = t.pool.frame_pool }

module _ (os : Os) where
  open os use {Disk}

  -- The calls of a table that a client of the store makes.
  unfoldable pub insert_row :
      ℕ
      → ℕ
      → Row
      → Table (Opened Disk)
      → Store Disk
      → Result (RowId × Table (Opened Disk) × Store Disk)
  insert_row fuel blank row t s = do
    (id, t') ← Table.insert_row (pooled os) fuel blank row (lend s t)
    ok (id, t', take_back s t')

  unfoldable pub get_row :
      RowId → Table (Opened Disk) → Store Disk → Result (Row × Table (Opened Disk) × Store Disk)
  get_row id t s = do
    (row, t') ← Table.get_row (pooled os) id (lend s t)
    ok (row, t', take_back s t')

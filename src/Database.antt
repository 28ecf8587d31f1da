-- ===== src/Database.antt =====
-- src/db/database.cpp: a store behind an interface. Its operations are still empty in the source.
use Prim.Native.String.{String}
use simple_db.Base.{ℕ}
use simple_db.BufferPool.File.{Os}
use simple_db.Transform.Marshal.{Bytes}
use simple_db.Store.{FileSystem, Store, make_store}

pub record Database (Disk : Type 0) : Type 0 where
  pub store : Store Disk

module _ (os : Os) (fs : FileSystem os.Disk) where
  open os use {Disk}

  abbrev pub make_database : String → ℕ → (ℕ → Bytes) → Disk → Database Disk
  make_database path frame_count bytes disk = record {
    store = make_store os fs frame_count bytes path disk;
  }

module _ {Disk : Type 0} where
  abbrev pub add_table : Database Disk → Database Disk
  add_table db = db

  abbrev pub insert_row : Database Disk → Database Disk
  insert_row db = db

  abbrev pub get_row : Database Disk → Database Disk
  get_row db = db

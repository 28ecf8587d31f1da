-- ===== src/Table/Pooled.antt =====
-- src/table/table.cpp on the pages of src/buffer_pool: a table's file and the pool that caches it.
pub mod Ready
pub mod Access
pub mod Alloc
use simple_db.Base.{ℕ, zero, suc, ◌+◌, ◌*◌, List, [], ◌∷◌, Result, ok, ◌>>=◌}
use simple_db.BufferPool.Page.{PageId}
use simple_db.BufferPool.File.{Os, File, get_page_count}
use simple_db.BufferPool.File
use simple_db.BufferPool.ClockCache.{BufferDescriptor, ClockCache}
use simple_db.BufferPool.FramePool.{FramePool, get_page, drop_page, get_data, set_data}
use simple_db.Transform.Marshal.{Bytes}
use simple_db.Table.Pages.{Pages}

pub record Opened (Disk : Type 0) : Type 0 where
  pub file : File
  pub frame_pool : FramePool Disk

abbrev pub total_usage : List (BufferDescriptor PageId) → ℕ
total_usage [] = 0
total_usage (d ∷ ds) = d.usage + total_usage ds

-- Rounds in which a sweep finds any frame that is unlocked: with none it goes on for ever.
abbrev pub sweep_rounds : ClockCache PageId → ℕ
sweep_rounds c = total_usage c.buffer_descriptors_layer * c.capacity + (c.capacity + c.capacity + 1)

module _ (os : Os) where
  open os use {Disk}

  -- get_table_page, what the table then does with the page's bytes, and the end of the page's life.
  unfoldable pub access :
      {A : Type 0} → ℕ → (Bytes → Result (A × Bytes)) → Opened Disk → Result (A × Opened Disk)
  access i f p = do
    (page, pool) ← get_page os (sweep_rounds p.frame_pool.cache) p.file.fd i p.frame_pool
    bytes ← get_data os page pool
    (a, bytes') ← f bytes
    changed ← set_data os page bytes' pool
    dropped ← drop_page os page changed
    ok (a, record p { frame_pool = dropped })

  unfoldable pub alloc_page : Opened Disk → Result (ℕ × Opened Disk)
  alloc_page p = do
    (index, file, disk) ← File.alloc_page os p.file p.frame_pool.disk
    ok (index, record { file = file; frame_pool = record p.frame_pool { disk = disk } })

  abbrev pub pooled : Pages
  pooled = record {
    Pool = Opened Disk;
    get_page_count = λ p. get_page_count p.file;
    alloc_page = alloc_page;
    access = access;
  }

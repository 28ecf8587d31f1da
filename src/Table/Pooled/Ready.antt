-- ===== src/Table/Pooled/Ready.antt =====
-- The file and the pool of a table as the pages that it uses.
use simple_db.Base.{
  [], ℕ, ◌*◌, ◌≤◌, ◌<◌, ◌≡◌, ◌≢◌, ap, Option, none, some, ltb, lt→ltb, length, get_elem?, pos,
  if◌then◌else◌,
}
use simple_db.BufferPool.Page.{page_size, FileFd, PageId, page_eq}
use simple_db.BufferPool.File.{Os, get_page_count}
use simple_db.BufferPool.FramePool.{Frame, FramePool}
use simple_db.BufferPool.FramePool.Coherent.{IsPool}
use simple_db.BufferPool.FramePool.Coherent
use simple_db.Transform.Marshal.{Bytes}
use simple_db.Table.Pages.{Meaning}
use simple_db.Table.Pooled.{Opened, pooled}

module _ (os : Os) where
  open os use {Disk}

  abbrev pub page_at : Opened Disk → ℕ → PageId
  page_at p i = record { fd = p.file.fd; page_index = i }

  -- What page `i` of the table's file holds.
  abbrev pub content : ℕ → Opened Disk → Option Bytes
  content i p =
      if ltb i (get_page_count p.file) then Coherent.content os (page_at p i) p.frame_pool else none

  pub content-inside :
      (i : ℕ) (p : Opened Disk)
      → i < get_page_count p.file
      → content i p ≡ Coherent.content os (page_at p i) p.frame_pool
  content-inside i p h =
      ap (λ b. if b then Coherent.content os (page_at p i) p.frame_pool else none)
        (lt→ltb i (get_page_count p.file) h)

  -- No frame is referenced.
  abbrev pub IsIdle : FramePool Disk → Type 0
  IsIdle pool = (i : ℕ) (f : Frame) → get_elem? pool.frames i ≡ some f → f.ref_count ≡ 0

module _ (os : Os) (fd : FileFd) (world : PageId → Option Bytes) where
  open os use {Disk}

  -- The pool is coherent with no page in use, and the file is as long as its pages. The
  -- pages of other files hold what `world` says.
  pub record IsReady (p : Opened Disk) : Type 0 where
    pub coherent : IsPool os p.frame_pool
    pub idle : IsIdle os p.frame_pool
    pub same_fd : p.file.fd ≡ fd
    pub nonzero : p.file.fd ≢ pos 0
    pub whole : p.file.size ≡ get_page_count p.file * page_size
    pub pages :
        (i : ℕ)
        → i < get_page_count p.file
        → (bytes : Bytes) × (Coherent.content os (page_at os p i) p.frame_pool ≡ some bytes)
          × (length bytes ≡ page_size)
    pub behind :
        (i : ℕ)
        → get_page_count p.file ≤ i
        → Coherent.content os (page_at os p i) p.frame_pool ≡ some []
    pub rest : (k : PageId) → fd ≢ k.fd → Coherent.content os k p.frame_pool ≡ world k

  -- What the pages of file `fd` hold, while those of other files hold what `world` says.
  abbrev pub meaning : Meaning (pooled os)
  meaning = record { IsReady = IsReady; content = content os }

-- ===== src/BufferPool/FramePool/Dump.antt =====
-- FramePool::dump_data, which puts the page of a frame on the disk.
use simple_db.Base.{◌≡◌, refl, false, some, inl, inr, ok, length, Option-cases}
use simple_db.BufferPool.Page.{page_size, FileFd, PageId, page_eq, same_page}
use simple_db.BufferPool.File.{Os}
use simple_db.BufferPool.File.Stored.{LawfulOs, stored, OnDisk, write_lem}
use simple_db.BufferPool.FramePool.{Frame, dump_data}

abbrev pub page_of : FileFd → Frame → PageId
page_of fd f = record { fd = fd; page_index = f.page_index }

module _ (os : Os) where
  open os use {Disk}

  -- The frame's page is on the disk, and every other page is as it was.
  pub record Dumped (f : Frame) (disk disk' : Disk) : Type 0 where
    pub flushed : (fd : FileFd) → f.owner ≡ some fd → stored os (page_of fd f) disk' ≡ some f.bytes
    pub others :
        (k : PageId)
        → ((fd : FileFd) → f.owner ≡ some fd → same_page (page_of fd f) k ≡ false)
        → stored os k disk' ≡ stored os k disk

module _ (os : Os) (lawful : LawfulOs os) where
  open os use {Disk}

  pub dump_data-Dumped :
      (f : Frame) (disk : Disk)
      → length f.bytes ≡ page_size
      → ((fd : FileFd) → f.owner ≡ some fd → OnDisk os (page_of fd f) disk)
      → (disk' : Disk) × (dump_data os f disk ≡ ok disk') × Dumped os f disk disk'
  unfolding dump_data
  dump_data-Dumped f disk full on_disk = elim (Option-cases f.owner) [
    | inl e ↦ (disk, rw e, record { flushed = λ fd e'. cc; others = λ k ne. refl })
    | inr (fd, e) ↦
        let (disk', done, now, same) =
          write_lem os lawful (page_of fd f) f.bytes disk (on_disk fd e) full in
        (
          disk',
          rw (e, done),
          record {
            flushed = λ fd' e'. let is : fd' ≡ fd = cc in rw is now;
            others = λ k ne. same k (ne fd e);
          },
        )
  ]

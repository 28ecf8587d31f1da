-- ===== src/BufferPool/File/Stored.antt =====
-- What file.cpp reads back, on system calls that do what their documentation says.
use simple_db.Base.{
  ℕ, ◌+◌, ◌*◌, ◌≤◌, ◌<◌, replicate, pos, ◌≡◌, ◌≢◌, ◌⊎◌, inl, inr, Option, some, ok, arith, eqb_ℤ,
  eqb_ℤ_iff, length, false, Bool-cases,
}
use simple_db.BufferPool.Page.{page_size, FileFd, PageId, page_eq, same_page}
use simple_db.BufferPool.File.{Os, write, read}
use simple_db.Transform.Marshal.{Bytes}

module _ (os : Os) where
  open os use {Disk, pread, pwrite, fallocate}

  -- The `n` bytes from `offset` on are those written, and bytes elsewhere are as they were.
  pub record Pwritten (fd : FileFd) (n : ℕ) (bytes : Bytes) (offset : ℕ) (disk disk' : Disk)
      : Type 0 where
    pub here : pread fd n offset disk' ≡ some bytes
    pub elsewhere :
        (fd' : FileFd) (n' offset' : ℕ)
        → (fd ≢ fd') ⊎ ((offset + n ≤ offset') ⊎ (offset' + n' ≤ offset))
        → pread fd' n' offset' disk' ≡ pread fd' n' offset' disk

  -- The `n` bytes from `offset` on are zeros. The file's bytes before them and behind them, and those
  -- of other files, are as they were.
  pub record Fallocated (fd : FileFd) (n offset : ℕ) (disk disk' : Disk) : Type 0 where
    pub zeroed : pread fd n offset disk' ≡ some (replicate n 0)
    pub before :
        (n' offset' : ℕ) (bytes : Bytes)
        → offset' + n' ≤ offset
        → pread fd n' offset' disk ≡ some bytes
        → length bytes ≡ n'
        → pread fd n' offset' disk' ≡ some bytes
    pub elsewhere :
        (fd' : FileFd) (n' offset' : ℕ)
        → (fd ≢ fd') ⊎ (offset + n ≤ offset')
        → pread fd' n' offset' disk' ≡ pread fd' n' offset' disk

  -- pwrite(2) over bytes that the file has already writes all of them. With FALLOC_FL_ZERO_RANGE
  -- fallocate(2) behind the end of an open file answers 0, on a file system that has room.
  pub record LawfulOs : Type 0 where
    pub pwrite_lem :
        (fd : FileFd) (n : ℕ) (bytes old : Bytes) (offset : ℕ) (disk : Disk)
        → pread fd n offset disk ≡ some old
        → length old ≡ n
        → length bytes ≡ n
        → (disk' : Disk) × (pwrite fd bytes offset disk ≡ some (n, disk'))
          × Pwritten fd n bytes offset disk disk'
    pub fallocate_lem :
        (fd : FileFd) (n : ℕ) (old : Bytes) (offset : ℕ) (disk : Disk)
        → pread fd n offset disk ≡ some old
        → length old < n
        → (disk' : Disk) × (fallocate fd offset n disk ≡ (pos 0, disk'))
          × Fallocated fd n offset disk disk'

  -- A page of a file on the disk.
  abbrev pub stored : PageId → Disk → Option Bytes
  stored k disk = pread k.fd page_size (k.page_index * page_size) disk

  -- A page that a file holds as a whole.
  abbrev pub OnDisk : PageId → Disk → Type 0
  OnDisk k disk = (bytes : Bytes) × (stored k disk ≡ some bytes) × (length bytes ≡ page_size)

  pub read_lem :
      (k : PageId) (bytes : Bytes) (disk : Disk)
      → stored k disk ≡ some bytes
      → length bytes ≡ page_size
      → read os k.fd k.page_index disk ≡ ok bytes
  unfolding read
  read_lem k bytes disk e l = rw (e, l)

  apart :
      (k j : PageId)
      → same_page k j ≡ false
      → (k.fd ≢ j.fd)
        ⊎ ((k.page_index * page_size + page_size ≤ j.page_index * page_size)
            ⊎ (j.page_index * page_size + page_size ≤ k.page_index * page_size))
  apart k j h = elim (Bool-cases (eqb_ℤ k.fd j.fd)) [
    | inr ne ↦ inl (λ e. ground (arith, (eqb_ℤ_iff k.fd j.fd).1 e))
    | inl e ↦ inr (ground arith)
  ]

  -- A write of a page of the file never fails. It is read back, and no other page changes.
  pub write_lem :
      (lawful : LawfulOs) (k : PageId) (bytes : Bytes) (disk : Disk)
      → OnDisk k disk
      → length bytes ≡ page_size
      → (disk' : Disk) × (write os k.fd k.page_index bytes disk ≡ ok disk')
        × (stored k disk' ≡ some bytes)
        × ((j : PageId) → same_page k j ≡ false → stored j disk' ≡ stored j disk)
  unfolding write
  write_lem lawful k bytes disk (old, e, l) h =
      let (disk', done, w) =
        lawful.pwrite_lem k.fd page_size bytes old (k.page_index * page_size) disk e l h in
      (
        disk',
        rw done,
        w.here,
        λ j ne. w.elsewhere j.fd page_size (j.page_index * page_size) (apart k j ne),
      )

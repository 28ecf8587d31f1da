-- ===== src/BufferPool/File.antt =====
-- src/buffer_pool/file.h and file.cpp: a file as pages of one size. The system calls are parameters.
pub mod Stored
use simple_db.Base.{
  ℕ, ◌+◌, ◌-◌, ◌*◌, ◌/◌, ℤ, pos, Option, Result, ok, err, ◌>>=◌, ◌>>◌, guard, or_fail,
  assert_failed, invalid_argument, runtime_error, eqb, eqb_ℤ, length, if◌then◌else◌,
}
use Prim.Native.String.{String}
use simple_db.BufferPool.Page.{page_size, FileFd}
use simple_db.Transform.Marshal.{Bytes}

-- O_CREAT | O_EXCL, or no further flags.
pub data OpenMode : Type 0 where
  create_new existing : OpenMode

-- A call that answers -1 has no result here, but for `fallocate`, whose answer the code looks at.
pub record Os : Type 1 where
  pub Disk : Type 0
  pub open_path : String → OpenMode → Disk → Option (FileFd × Disk)
  pub fstat : FileFd → Disk → Option ℕ
  pub fallocate : FileFd → ℕ → ℕ → Disk → ℤ × Disk
  pub pread : FileFd → ℕ → ℕ → Disk → Option Bytes
  pub pwrite : FileFd → Bytes → ℕ → Disk → Option (ℕ × Disk)

pub record File : Type 0 where
  pub fd : FileFd
  pub size : ℕ

module _ (os : Os) where
  open os use {Disk, open_path, fstat, fallocate, pread, pwrite}

  unfoldable pub discover_size : FileFd → Disk → Result ℕ
  discover_size fd disk = or_fail (fstat fd disk) invalid_argument

  unfoldable pub open_with : String → OpenMode → Disk → Result (File × Disk)
  open_with path mode disk = do
    (fd, disk') ← or_fail (open_path path mode disk) runtime_error
    size ← discover_size fd disk'
    ok (record { fd = fd; size = size }, disk')

  unfoldable pub create_file : String → Disk → Result (File × Disk)
  create_file path disk = open_with path create_new disk

  unfoldable pub open_file : String → Disk → Result (File × Disk)
  open_file path disk = open_with path existing disk

  -- The answer of `fallocate` is compared with 1, so that -1 is not noticed.
  unfoldable pub alloc : File → Disk → Result (File × Disk)
  alloc file disk =
      let (r, disk') = fallocate file.fd file.size page_size disk in
      if eqb_ℤ r (pos 1)
      then err invalid_argument
      else ok (record file { size = file.size + page_size }, disk')

  unfoldable pub alloc_page : File → Disk → Result (ℕ × File × Disk)
  alloc_page file disk = do
    (file', disk') ← alloc file disk
    ok (file.size / page_size, file', disk')

  -- The assert comes before the test for -1.
  unfoldable pub write : FileFd → ℕ → Bytes → Disk → Result Disk
  write fd index data_ disk = do
    (r, disk') ← or_fail (pwrite fd data_ (index * page_size) disk) assert_failed
    guard (eqb r page_size) assert_failed
    ok disk'

  unfoldable pub read : FileFd → ℕ → Disk → Result Bytes
  read fd index disk = do
    bytes ← or_fail (pread fd page_size (index * page_size) disk) assert_failed
    guard (eqb (length bytes) page_size) assert_failed
    ok bytes

unfoldable pub get_page_count : File → ℕ
get_page_count file = (file.size + page_size - 1) / page_size

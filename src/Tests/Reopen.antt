-- ===== src/Tests/Reopen.antt =====
-- A store on files in memory that is destroyed, and another one after it.
use simple_db.Base.{
  ℕ, zero, suc, ◌*◌, ◌≤◌, ◌<◌, ◌≡◌, refl, sym, ap, ◌∙◌, [], some, ok, arith, length,
  length-replicate, pos,
}
use mathlib.Core.Path.{subst}
use Prim.Native.String.{String}
use simple_db.BufferPool.Page.{page_size, FileFd, PageId}
use simple_db.BufferPool.File.{existing, get_page_count}
use simple_db.BufferPool.File.Stored.{stored, OnDisk}
use simple_db.BufferPool.FramePool.{FramePool, destroy}
use simple_db.BufferPool.FramePool.Flush.{destroy-stored}
use simple_db.Table.FixedTablePage.{zeros}
use simple_db.Table.Row.{RowId}
use simple_db.Table.Table.{Table}
use simple_db.Table.Pooled.{Opened}
use simple_db.Store.{Store, make_store, insert_row, get_row, connect_table}
use simple_db.Store.Served.{contents, fd_of, IsServed}
use simple_db.Store.Rows.{Inserted, rounds, insert_row-Inserted}
use simple_db.Store.Reopen.{IsNamed, connect_table-destroy}
use simple_db.Store.Durable.{get_row-reopened}
use simple_db.Tests.Memory.{
  Files, length-cells, memory, memory-Lawful, part, read_file, read-full, fd_of_path, open_memory,
}
use simple_db.Tests.Table.{columns, row}
use simple_db.Tests.Stores.{
  memory_files, fd_of_path_nonzero, status_store, numbers, numbers-IsServed, row-Insertable,
}

read-none :
    (offset : ℕ) (f : ℕ × (ℕ → ℕ)) → some (read_file page_size offset f) ≡ some [] → f.0 ≤ offset
read-none offset f e =
    let gone : read_file page_size offset f ≡ [] = cc in
    let count : part page_size offset f.0 ≡ 0 =
      sym (length-cells (part page_size offset f.0) offset f.1) ∙ ap length gone in
    ground arith

size_of_pages :
    (n : ℕ) (fd : FileFd) (d : Files)
    → ((i : ℕ) → i < n → OnDisk memory (record { fd = fd; page_index = i }) d)
    → stored memory (record { fd = fd; page_index = n }) d ≡ some []
    → (d fd).0 ≡ n * page_size
size_of_pages zero fd d pages e = let le = read-none 0 (d fd) e in omega arith
size_of_pages (suc n) fd d pages e =
    let le = read-none (suc n * page_size) (d fd) e in
    let (b, eb, l) = pages n (omega arith) in
    let whole = read-full page_size (n * page_size) (d fd) b eb l in
    let ge : suc n * page_size ≤ (d fd).0 = ground arith in omega (arith, le, ge)

memory-IsNamed :
    (path : String) (d : Files)
    → OnDisk memory (record { fd = fd_of_path path; page_index = 0 }) d
    → IsNamed memory memory_files path (fd_of_path path) d
memory-IsNamed path d (b, e, l) =
    let whole = read-full page_size 0 (d (fd_of_path path)) b e l in
    record {
      there = ground arith;
      fd = fd_of_path path;
      disk' = open_memory (fd_of_path path) existing d;
      opened = refl;
      reopened = record {
        nonzero = fd_of_path_nonzero path;
        same = λ n offset. refl;
        size = λ n pages behind. ap some (size_of_pages n (fd_of_path path) d pages behind);
      };
    }

pub first :
    (id : RowId) × (t' : Table (Opened Files)) × (s' : Store Files) × (insert_row memory 1 0 row
        numbers status_store
      ≡ ok (id, t', s'))
    × Inserted memory memory-Lawful columns row status_store numbers (λ i. []) id t' s'
unfolding get_page_count
first =
    insert_row-Inserted memory memory-Lawful columns 0 row 1 status_store numbers (λ i. [])
      row-Insertable numbers-IsServed (omega arith)

left :
    (pool : FramePool Files) × (destroy memory first.2.buffer_pool ≡ ok pool)
    × ((k : PageId) → stored memory k pool.disk ≡ contents memory first.2.buffer_pool k)
left = destroy-stored memory memory-Lawful first.2.buffer_pool first.4.served.ready.coherent

first_page : OnDisk memory (record { fd = pos 3; page_index = 0 }) left.0.disk
first_page =
    let (b, e, l) = first.4.served.ready.pages 0 (omega (arith, first.4.inside)) in
    let same : fd_of first.1 ≡ pos 3 = first.4.same_fd in
    (
      b,
      left.2 (record { fd = pos 3; page_index = 0 })
          ∙ ap (λ fd. contents memory first.2.buffer_pool (record { fd = fd; page_index = 0 }))
              (sym same)
          ∙ e,
      l,
    )

named : IsNamed memory memory_files "numbers" (fd_of first.1) left.0.disk
named =
    subst (λ fd. IsNamed memory memory_files "numbers" fd left.0.disk) (sym first.4.same_fd)
      (memory-IsNamed "numbers" left.0.disk first_page)

connect_table-destroy_example :
    (t' : Table (Opened Files)) × (s' : Store Files) × (connect_table memory memory_files "numbers"
        columns
        (make_store memory memory_files 1 (λ i. zeros page_size) "" left.0.disk)
      ≡ ok (t', s'))
    × IsServed memory columns s' t' first.4.view'
    × (get_page_count t'.pool.file ≡ get_page_count first.1.pool.file)
connect_table-destroy_example =
    connect_table-destroy memory memory_files memory-Lawful 1 (λ i. zeros page_size) "" "numbers"
      columns first.2 first.1 first.4.view' left.0 (omega arith)
      (λ i. length-replicate {A = ℕ} page_size 0) first.4.served left.1 named

first_bound : rounds numbers < 1
unfolding get_page_count
first_bound = omega arith

get_row-reopened_example :
    (t₂ : Table (Opened Files)) × (s₂ : Store Files) × (connect_table memory memory_files "numbers"
        columns
        (make_store memory memory_files 1 (λ i. zeros page_size) "" left.0.disk)
      ≡ ok (t₂, s₂))
    × (t₃ : Table (Opened Files)) × (s₃ : Store Files) × (get_row memory first.0 t₂ s₂
        ≡ ok (row, t₃, s₃))
get_row-reopened_example =
    get_row-reopened memory memory_files memory-Lawful 1 (λ i. zeros page_size) "" "numbers" columns
      0 row 1 status_store first.2 numbers first.1 (λ i. []) first.0 left.0 (omega arith)
      (λ i. length-replicate {A = ℕ} page_size 0) row-Insertable numbers-IsServed first_bound
      first.3 left.1 named

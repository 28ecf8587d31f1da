-- ===== src/Tests/Stores.antt =====
-- Runs of src/store/store.cpp on files in memory.
use simple_db.Base.{
  ℕ, zero, suc, ◌≡◌, ◌≢◌, refl, sym, ap, ◌∙◌, Bool, false, [], some, inl, inr, ok, arith, ltb,
  eqb_ℤ, eqb_ℤ_iff, length-replicate, pos, Bool-cases, if◌then◌else◌,
}
use mathlib.Core.Path.{subst}
use Prim.Native.String.{String}
use simple_db.BufferPool.Page.{page_size, FileFd}
use simple_db.BufferPool.File.{create_new, get_page_count}
use simple_db.BufferPool.FramePool.Coherent.{IsPool, make_frame_pool-IsPool}
use simple_db.Table.FixedTablePage.{zeros}
use simple_db.Table.Pooled.Ready.{IsIdle, meaning}
use simple_db.Store.{FileSystem, Store, make_store, exists, insert_row, get_row}
use simple_db.Store.Connect.{
  Created, LawfulFileSystem, Connects, connect_table-IsServed, new_table, new_store, pool-Changed,
  new_table-IsServed,
}
use simple_db.Store.Served.{contents, IsServed, Changed, IsServed-kept}
use simple_db.Store.Rows.{Insertable, get_row-insert_row_shared}
use simple_db.Table.Table.{Table}
use simple_db.Table.Pooled.{Opened, pooled}
use simple_db.Table.Pooled.Alloc.{pooled-LawfulPages}
use simple_db.Table.Pages.{LawfulPages}
use simple_db.Table.Row.{RowId}
use simple_db.Tests.Table.{columns, row, row-Fits, columns-IsSized, columns_wide}
use simple_db.Tests.Pages.{columns_fit}
use simple_db.Tests.Memory.{
  Files, cells, memory, memory-Lawful, part, read_file, fd_of_path, open_memory,
}

-- A path exists if its file has bytes.
abbrev pub memory_files : FileSystem Files
memory_files = record {
  exists = λ path d. ltb 0 (d (fd_of_path path)).0;
  remove = λ path d fd. if eqb_ℤ fd (fd_of_path path) then (0, λ x. 0) else d fd;
  join = λ path name. name;
}

pub fd_of_path_nonzero : (path : String) → fd_of_path path ≢ pos 0
fd_of_path_nonzero path e = ground arith

opened_same : (fd : FileFd) (d : Files) → open_memory fd create_new d fd ≡ (0, λ x. 0)
opened_same fd d = ap (λ (b : Bool). if b then (0, λ x. 0) else d fd) ((eqb_ℤ_iff fd fd).1 refl)

read_empty : (n offset : ℕ) (f : ℕ × (ℕ → ℕ)) → f.0 ≡ 0 → read_file n offset f ≡ []
unfolding cells
read_empty n offset f e =
    let nothing_there : part n offset f.0 ≡ 0 = ground arith in
    ap (λ m. cells m offset f.1) nothing_there

memory-Created :
    (path : String) (d : Files)
    → ltb 0 (d (fd_of_path path)).0 ≡ false
    → Created memory memory_files (fd_of_path path) d (open_memory (fd_of_path path) create_new d)
memory-Created path d new = record {
  nonzero = fd_of_path_nonzero path;
  unknown = λ n offset bytes e.
      let no_bytes : (d (fd_of_path path)).0 ≡ 0 = ground arith in
      let gone = read_empty n offset (d (fd_of_path path)) no_bytes in
      let e' : some (read_file n offset (d (fd_of_path path))) ≡ some bytes = e in cc;
  size = λ n e.
      let none_there = ap (λ (f : ℕ × (ℕ → ℕ)). some f.0) (opened_same (fd_of_path path) d) in
      let same : some n ≡ some 0 = sym e ∙ none_there in cc;
  empty = λ n offset.
      ap (λ f. some (read_file n offset f)) (opened_same (fd_of_path path) d)
      ∙ ap some (read_empty n offset (0, λ x. 0) refl);
  others = λ fd' n offset ne. elim (Bool-cases (eqb_ℤ fd' (fd_of_path path))) [
    | inl same ↦ absurd (ne (sym ((eqb_ℤ_iff fd' (fd_of_path path)).0 same)))
    | inr apart ↦
        ap (λ (b : Bool). some (read_file n offset (if b then (0, λ x. 0) else d fd'))) apart
  ];
}

memory_files-Lawful : LawfulFileSystem memory memory_files
memory_files-Lawful = record {
  create_lem = λ path d fd d' new made.
      let same : (fd_of_path path, open_memory (fd_of_path path) create_new d) ≡ (fd, d') = cc in
      subst (λ (r : FileFd × Files). Created memory memory_files r.0 d r.1) same
        (memory-Created path d new);
}

abbrev pub no_files : Files
no_files fd = (0, λ x. 0)

abbrev pub empty_store : Store Files
empty_store = make_store memory memory_files 2 (λ i. zeros page_size) "" no_files

pub empty_store-IsPool : IsPool memory empty_store.buffer_pool
empty_store-IsPool =
    make_frame_pool-IsPool memory 2 (λ i. zeros page_size) no_files (omega arith)
      (λ i. length-replicate {A = ℕ} page_size 0)

pub empty_store-IsIdle : IsIdle memory empty_store.buffer_pool
empty_store-IsIdle zero f e = ground arith
empty_store-IsIdle (suc zero) f e = ground arith
empty_store-IsIdle (suc (suc i)) f e = cc

connect_table-IsServed_example :
    Connects memory memory_files "numbers" columns empty_store
      (some (pos 3, open_memory (pos 3) create_new no_files))
unfolding exists
connect_table-IsServed_example =
    connect_table-IsServed memory memory_files memory_files-Lawful "numbers" columns empty_store
      empty_store-IsPool empty_store-IsIdle refl

-- Two tables, one after the other.
abbrev pub numbers_disk : Files
numbers_disk = open_memory (pos 3) create_new no_files

pub numbers-Created : Created memory memory_files (pos 3) no_files numbers_disk
numbers-Created = memory-Created "numbers" no_files refl

abbrev pub numbers : Table (Opened Files)
numbers =
    new_table memory memory_files empty_store empty_store-IsPool empty_store-IsIdle (pos 3)
      numbers_disk numbers-Created columns

abbrev pub numbers_store : Store Files
numbers_store =
    new_store memory memory_files empty_store empty_store-IsPool empty_store-IsIdle (pos 3)
      numbers_disk numbers-Created

pub numbers_Changed : Changed memory (pos 3) empty_store.buffer_pool numbers_store.buffer_pool
numbers_Changed =
    pool-Changed memory memory_files empty_store empty_store-IsPool empty_store-IsIdle (pos 3)
      numbers_disk numbers-Created

abbrev pub status_disk : Files
status_disk = open_memory (pos 4) create_new numbers_disk

pub status-Created : Created memory memory_files (pos 4) numbers_disk status_disk
status-Created = memory-Created "status" numbers_disk refl

abbrev pub status : Table (Opened Files)
status =
    new_table memory memory_files numbers_store numbers_Changed.coherent numbers_Changed.idle
      (pos 4) status_disk status-Created columns

abbrev pub status_store : Store Files
status_store =
    new_store memory memory_files numbers_store numbers_Changed.coherent numbers_Changed.idle
      (pos 4) status_disk status-Created

pub numbers-IsServed : IsServed memory columns status_store numbers (λ i. [])
numbers-IsServed =
    IsServed-kept memory columns numbers_store status_store (pos 4) numbers (λ i. [])
      (pool-Changed memory memory_files numbers_store numbers_Changed.coherent numbers_Changed.idle
        (pos 4) status_disk status-Created)
      (λ e. ground arith)
      (new_table-IsServed memory memory_files empty_store empty_store-IsPool empty_store-IsIdle
        (pos 3) numbers_disk numbers-Created columns)

status-IsServed : IsServed memory columns status_store status (λ i. [])
status-IsServed =
    new_table-IsServed memory memory_files numbers_store numbers_Changed.coherent
      numbers_Changed.idle (pos 4) status_disk status-Created columns

pub row-Insertable : Insertable columns row
row-Insertable = record {
  wide = columns_wide;
  sized = columns-IsSized;
  fits = row-Fits;
  room = columns_fit;
}

-- The two tables of the run hold one row each.
get_row-insert_row_shared_example :
    (id : RowId) × (t' : Table (Opened Files)) × (s' : Store Files) × (insert_row memory 1 0 row
        numbers status_store
      ≡ ok (id, t', s'))
    × (id₂ : RowId) × (t₂' : Table (Opened Files)) × (s'' : Store Files) × (insert_row memory 1 0
          row status s'
        ≡ ok (id₂, t₂', s''))
    × (t'' : Table (Opened Files)) × (s₃ : Store Files) × (get_row memory id t' s''
        ≡ ok (row, t'', s₃))
unfolding get_page_count
get_row-insert_row_shared_example =
    get_row-insert_row_shared memory memory-Lawful columns columns 0 row row 1 1 status_store
      numbers status (λ i. []) (λ i. []) row-Insertable row-Insertable numbers-IsServed
      status-IsServed (λ e. ground arith) (omega arith) (omega arith)

pooled-LawfulPages_example :
    LawfulPages (pooled memory) (meaning memory (pos 3) (contents memory status_store.buffer_pool))
pooled-LawfulPages_example =
    pooled-LawfulPages memory (pos 3) (contents memory status_store.buffer_pool) memory-Lawful

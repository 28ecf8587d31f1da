-- ===== src/Example.antt =====
-- example/main.cpp: the program that makes a table, fills it and reads it back. What it writes to
-- std::cout is part of its answer.
pub mod Fails
use Prim.Native.String.{String, ◌++◌}
use simple_db.Base.{
  ℕ, zero, suc, ◌+◌, ◌%◌, List, [], ◌∷◌, Result, ok, ◌>>=◌, ◌>>◌, guard, assert_failed, Dict,
  contains, insert, if◌then◌else◌,
}
use simple_db.BufferPool.File.{Os}
use simple_db.BufferPool.FramePool.{destroy}
use simple_db.Table.Schema.{Schema, boolean, uint64}
use simple_db.Table.Row.{Row, RowId, num, eq_row, print_attribute, row_id_eq}
use simple_db.Table.Table.{Table}
use simple_db.Table.Pooled.{Opened}
use simple_db.Transform.Marshal.{Bytes}
use simple_db.Store.{FileSystem, Store, make_store, connect_table, insert_row, get_row}

abbrev pub schema : Schema
schema =
    record { name = "id"; type = uint64; length = 4 }
    ∷ record { name = "status"; type = boolean; length = 1 }
    ∷ record { name = "number"; type = uint64; length = 4 }
    ∷ []

-- A size_t is a value of the variant's uint64_t: the conversion to bool would be a narrowing one.
abbrev pub row_of : ℕ → Row
row_of i = num i ∷ num (i % 2) ∷ num (100 + i) ∷ []

-- The map's insert leaves an entry that is there.
abbrev insert_new : RowId → Row → Dict RowId Row → Dict RowId Row
insert_new id row expected = if contains id expected then expected else insert id row expected

module _ (os : Os) (size : ℕ → String) where
  open os use {Disk}

  -- The first loop, by the rounds that are left.
  unfoldable pub insert_rows :
      ℕ
      → ℕ
      → ℕ
      → ℕ
      → Dict RowId Row
      → Table (Opened Disk)
      → Store Disk
      → Result (Dict RowId Row × Table (Opened Disk) × Store Disk)
  insert_rows fuel blank zero i expected t s = ok (expected, t, s)
  insert_rows fuel blank (suc n) i expected t s = do
    (id, t', s') ← insert_row os fuel blank (row_of i) t s
    insert_rows fuel blank n (i + 1) (insert_new id (row_of i) expected) t' s'

  unfoldable pub print_row : Row → String
  print_row [] = ""
  print_row (v ∷ row) = print_attribute size v ++ "\n" ++ print_row row

  -- The second loop, over the entries in the order of the map.
  unfoldable pub check_rows :
      List (RowId × Row)
      → Table (Opened Disk)
      → Store Disk
      → Result (String × Table (Opened Disk) × Store Disk)
  unfolding print_row
  check_rows [] t s = ok ("", t, s)
  check_rows ((id, expected) ∷ entries) t s = do
    (row, t', s') ← get_row os id t s
    guard (eq_row row expected) assert_failed
    (out, t'', s'') ← check_rows entries t' s'
    ok ("=== row:\n" ++ print_row row ++ "\n" ++ out, t'', s'')

  -- `order` is the order of a loop over the map. At the end the pool is destroyed with the store. The
  -- answer is the exit code and the output.
  unfoldable pub main :
      FileSystem Disk
      → (Dict RowId Row → List (RowId × Row))
      → ℕ
      → ℕ
      → (ℕ → Bytes)
      → Disk
      → Result (ℕ × String × Disk)
  unfolding insert_rows check_rows
  main fs order fuel blank bytes disk = do
    (t, s) ← connect_table os fs "test_db" schema (make_store os fs 5 bytes "" disk)
    (expected, t', s') ← insert_rows fuel blank 3 0 [] t s
    (out, t'', s'') ← check_rows (order expected) t' s'
    pool ← destroy os s''.buffer_pool
    ok (0, "Hello, World!\n" ++ out, pool.disk)

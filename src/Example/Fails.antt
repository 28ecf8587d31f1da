-- ===== src/Example/Fails.antt =====
-- What becomes of the rows of example/main.cpp.
use mathlib.Core.Path.{subst}
use Prim.Native.String.{String}
use simple_db.Base.{ℕ, ◌≡◌, sym, ap, Dict, List, [], ok, on_ok}
use simple_db.BufferPool.File.{Os}
use simple_db.Table.Schema.{Schema}
use simple_db.Table.Row.{RowId, Row}
use simple_db.Table.Table.{Table}
use simple_db.Table.Table
use simple_db.Transform.PageProvider.{make_fixed_page_provider}
use simple_db.Table.Pooled.{Opened, pooled}
use simple_db.Transform.Marshal.{Bytes}
use simple_db.Transform.Marshal.Typed.{IsTyped}
use simple_db.Store.{FileSystem, Store, make_store, connect_table, insert_row, open_or_create}
use simple_db.Store.Typed.{insert_row-IsTyped}
use simple_db.Example.{schema, row_of, insert_rows, main}

module _ (os : Os) (fs : FileSystem os.Disk) where
  open os use {Disk}

  -- A table has the schema that it was connected with.
  connect_table-schema :
      (name : String) (columns : Schema) (s s' : Store Disk) (t : Table (Opened Disk))
      → connect_table os fs name columns s ≡ ok (t, s')
      → t.marshal.schema ≡ columns
  unfolding connect_table
  connect_table-schema name columns s s' t h =
      on_ok (open_or_create os fs _ s.buffer_pool.disk) _ h λ r opened h₁.
        let same : Table.create (pooled os)
              (record { file = r.0; frame_pool = record s.buffer_pool { disk = r.1 } })
              (make_fixed_page_provider columns)
            ≡ t =
          cc in
        sym (ap (λ (x : Table (Opened Disk)). x.marshal.schema) same)

  -- The program never gets to its end, whatever the system calls do and however long its loops may go
  -- on: the row of a number and a number that it stores in a number and a flag does not pass the test
  -- of its first insert.
  pub main_fails :
      (size : ℕ → String) (order : Dict RowId Row → List (RowId × Row)) (fuel blank : ℕ)
      (bytes : ℕ → Bytes) (disk : Disk)
      → ¬ ((answer : ℕ × String × Disk) × (main os size fs order fuel blank bytes disk ≡ ok answer))
  unfolding main insert_rows
  main_fails size order fuel blank bytes disk (answer, h) =
      on_ok (connect_table os fs "test_db" schema (make_store os fs 5 bytes "" disk)) _ h
        λ r connected h₁.
          on_ok (insert_rows os size fuel blank 3 0 [] r.0 r.1) _ h₁ λ q inserted h₂.
            on_ok (insert_row os fuel blank (row_of 0) r.0 r.1) _ inserted λ p first h₃.
              let typed : IsTyped schema (row_of 0) =
                subst (λ sc. IsTyped sc (row_of 0))
                  (connect_table-schema "test_db" schema _ r.1 r.0 connected)
                  (insert_row-IsTyped os fuel blank (row_of 0) r.0 p.1 r.1 p.2 p.0 first) in
              typed.1.0

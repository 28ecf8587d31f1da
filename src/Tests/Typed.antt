-- ===== src/Tests/Typed.antt =====
-- The types of rows in a store on files in memory, a run of the example's first insert, and text that
-- the program prints.
use simple_db.Base.{ℕ, ◌≡◌, refl, [], some, ◌∷◌, ok, ◌⊎◌}
use Prim.Native.String.{String}
use simple_db.Table.Table.{Table}
use simple_db.Table.Pooled.{Opened}
use simple_db.Table.FixedTablePage.{page_size, zeros}
use simple_db.Transform.Marshal.Typed.{IsTyped}
use simple_db.Store.{Store, get_row}
use simple_db.Store.Served.{fd_of, IsServed, Changed}
use simple_db.Store.Rows.{get_row-IsServed}
use simple_db.Store.Typed.{insert_row-IsTyped, get_row-IsTyped}
use simple_db.Example.{main}
use simple_db.Example.Fails.{main_fails}
use simple_db.Log.{error, log}
use simple_db.Tests.Memory.{Files, memory, memory-Lawful}
use simple_db.Tests.Table.{columns, row, columns_wide}
use simple_db.Tests.Stores.{memory_files, no_files, numbers, status_store}
use simple_db.Tests.Reopen.{first}

insert_row-IsTyped_example : IsTyped numbers.marshal.schema row
insert_row-IsTyped_example =
    insert_row-IsTyped memory 1 0 row numbers first.1 status_store first.2 first.0 first.3

second :
    (t' : Table (Opened Files)) × (s' : Store Files) × (get_row memory first.0 first.1 first.2
      ≡ ok (row, t', s'))
    × IsServed memory columns s' t' first.4.view'
    × Changed memory (fd_of first.1) first.2.buffer_pool s'.buffer_pool
second =
    get_row-IsServed memory memory-Lawful columns first.2 first.1 first.4.view' first.0 (some row)
      columns_wide first.4.served first.4.inside first.4.stored.stored

get_row-IsTyped_example : (row ≡ []) ⊎ IsTyped first.1.marshal.schema row
get_row-IsTyped_example =
    get_row-IsTyped memory first.0 row first.1 second.0 first.2 second.1 second.2

main_fails_example : ¬ (
    (answer : ℕ × String × Files) × (main memory
        (λ n. "")
        memory_files
        (λ expected. expected)
        1
        0
        (λ i. zeros page_size)
        no_files
      ≡ ok answer))
main_fails_example =
    main_fails memory memory_files (λ n. "") (λ expected. expected) 1 0 (λ i. zeros page_size)
      no_files

error_line :
    log error ("lost " ∷ "page" ∷ []) (record { cout = "a"; cerr = "" })
    ≡ record { cout = "a"; cerr = "[ERROR]\tlost page\n" }
unfolding log
error_line = refl

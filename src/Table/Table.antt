-- ===== src/Table/Table.antt =====
-- src/table/table.h and table.cpp: a table is the rows on the pages of a file.
pub mod View
pub mod Round
pub mod Insert
pub mod TooWide
pub mod Bounds
use simple_db.Base.{
  ℕ, zero, suc, ◌+◌, Option, none, some, Result, ok, err, ◌>>=◌, out_of_fuel, eqb, if◌then◌else◌,
}
use simple_db.Table.Row.{Row, RowId}
use simple_db.Table.FixedTablePage
use simple_db.Table.Pages.{Pages}
use simple_db.Transform.Marshal.{Bytes, Marshal}

-- `pool` stands for the file and the buffer pool, `marshal` for the page provider.
pub record Table (Pool : Type 0) : Type 0 where
  pub pool : Pool
  pub marshal : Marshal
  pub current_page_index : ℕ

module _ (s : Pages) where
  open s use {Pool, get_page_count, alloc_page, access}

  abbrev pub create : Pool → Marshal → Table Pool
  create pool provider = record { pool = pool; marshal = provider; current_page_index = 0 }

  -- Behind the last page the file grows.
  unfoldable pub ensure_page : Table Pool → Result (Table Pool)
  ensure_page t =
      if eqb t.current_page_index (get_page_count t.pool)
      then (do
        (index, pool) ← alloc_page t.pool
        ok (record t { pool = pool; current_page_index = index }))
      else ok t

  -- The loop, which goes on to the next page as long as pages are full.
  unfoldable pub insert_row : ℕ → ℕ → Row → Table Pool → Result (RowId × Table Pool)
  unfolding ensure_page
  insert_row zero blank row t = err out_of_fuel
  insert_row (suc fuel) blank row t = ensure_page t >>= λ t'.
      access t'.current_page_index (FixedTablePage.insert_row blank t'.marshal row) t'.pool
      >>= λ (found, pool). elim found [
        | none ↦
            insert_row fuel blank row
              (record t' { pool = pool; current_page_index = t'.current_page_index + 1 })
        | some row_index ↦ ok (
          record { page_index = t'.current_page_index; row_index = row_index },
          record t' { pool = pool },
        )
      ]

  abbrev pub read_row : Marshal → ℕ → Bytes → Result (Row × Bytes)
  read_row m row_index page = do row ← FixedTablePage.get_row m row_index page; ok (row, page)

  unfoldable pub get_row : RowId → Table Pool → Result (Row × Table Pool)
  get_row id t = do
    (row, pool) ← access id.page_index (read_row t.marshal id.row_index) t.pool
    ok (row, record t { pool = pool })

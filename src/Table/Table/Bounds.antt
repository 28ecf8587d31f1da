-- ===== src/Table/Table/Bounds.antt =====
-- Where Table::insert_row puts a row: on a page of the file, in a slot that lies on the page.
use simple_db.Base.{ℕ, ◌+◌, ◌*◌, ◌/◌, ◌-◌, ◌≤◌, ◌<◌, ◌≡◌, ◌≢◌, some, ok, arith, get_elem?-lt}
use simple_db.Table.Schema.{Schema}
use simple_db.Table.Row.{Row, RowId}
use simple_db.Table.FixedTablePage.{page_size, data_by_index}
use simple_db.Table.FixedTablePage.Slots.{data_by_index_lem}
use simple_db.Table.Pages.{Pages, Meaning, LawfulPages}
use simple_db.Table.Table.{Table, insert_row}
use simple_db.Table.Table.View.{View, IsTable}
use simple_db.Table.Table.Round.{slot_count}
use simple_db.Table.Table.Insert.{insert_row-IsTable}
use simple_db.Transform.Marshal.{create, calculate_row_space}
use simple_db.Transform.Marshal.RoundTrip.{Fits, IsSized}

slot_inside :
    (space i : ℕ) → i < page_size / (1 + space) → i * (1 + space) + (1 + space) ≤ page_size
slot_inside space i h = grind arith

module _ (s : Pages) (m : Meaning s) (schema : Schema) where
  open s use {Pool, get_page_count}

  -- The place of a row: the page is one of the table's, and the slot with its header ends on the
  -- page.
  pub record IsInside (id : RowId) (t : Table Pool) : Type 0 where
    pub page : id.page_index < get_page_count t.pool
    pub offset : ℕ
    pub at : data_by_index (create schema) id.row_index ≡ ok offset
    pub slot : offset + (1 + calculate_row_space schema) ≤ page_size

  module _ (lawful : LawfulPages s m) (wide : calculate_row_space schema ≢ 0) (blank : ℕ)
      (row : Row) (sized : IsSized schema) (fits : Fits schema row)
      (room : 1 + calculate_row_space schema ≤ page_size) where
    -- A row that fits a table whose slots fit on a page goes to a page of the table, and its slot ends
    -- on that page.
    pub insert_row-IsInside :
        (n : ℕ) (t : Table Pool) (view : View)
        → IsTable s m schema t view
        → get_page_count t.pool - t.current_page_index < n
        → (id : RowId) × (t' : Table Pool) × (insert_row s n blank row t ≡ ok (id, t'))
          × IsInside id t'
    insert_row-IsInside n t view v h =
        let (id, t', view', run, v', inside, grown, st) =
          insert_row-IsTable s m schema lawful wide blank row sized fits room n t view v h in
        let (bytes, at, rep) = v'.pages id.page_index inside in
        let low : id.row_index < slot_count schema = omega (
          arith,
          get_elem?-lt (view' id.page_index) id.row_index (some row) st.stored,
          rep.count,
        ) in
        (
          id,
          t',
          run,
          record {
            page = inside;
            offset = id.row_index * (1 + calculate_row_space schema);
            at = data_by_index_lem schema wide id.row_index;
            slot = slot_inside (calculate_row_space schema) id.row_index low;
          },
        )

-- ===== src/Table/FixedTablePage.antt =====
-- src/table/fixed_table_page.h and fixed_table_page.cpp: a page of rows of one size, each behind a
-- byte that says whether its slot is taken. The state is the page's bytes.
pub mod Slots
pub mod Insert
use simple_db.Base.{
  ℕ, zero, suc, ◌+◌, ◌*◌, ◌/◌, List, [], ◌∷◌, Option, none, some, Result, ok, err, ◌>>=◌, ◌>>◌,
  guard, or_fail, assert_failed, out_of_range, get_elem?, eqb, replicate, if◌then◌else◌,
}
pub use simple_db.BufferPool.Page.{page_size}
use simple_db.Table.Row.{Row, eq_row}
use simple_db.Transform.Marshal.{
  Bytes, Marshal, fixed_row_space, write_at, serialize_row, deserialize_row,
}

-- The bytes of fresh pages.
abbrev pub zeros : ℕ → Bytes
zeros n = replicate n 0

unfoldable pub max_row_index : Marshal → Result ℕ
max_row_index m = do space ← fixed_row_space m; ok (page_size / (1 + space))

unfoldable pub data_by_index : Marshal → ℕ → Result ℕ
data_by_index m index = do space ← fixed_row_space m; ok (index * (1 + space))

abbrev pub byte_at : ℕ → Bytes → Result ℕ
byte_at offset page = or_fail (get_elem? page offset) out_of_range

-- The loop of find_free_slot, by the rounds that are left.
unfoldable pub find_from : ℕ → ℕ → Marshal → Bytes → Result (Option ℕ)
find_from zero index m page = ok none
find_from (suc n) index m page =
    let rest = find_from n (index + 1) m page in
    data_by_index m index >>= λ offset.
    byte_at offset page >>= λ header. if eqb header 0 then ok (some index) else rest

-- `none` is the pair (false, 0).
unfoldable pub find_free_slot : Marshal → Bytes → Result (Option ℕ)
unfolding max_row_index find_from
find_free_slot m page = do n ← max_row_index m; find_from n 0 m page

unfoldable pub fill_slot : ℕ → Marshal → Row → ℕ → Bytes → Result (Option ℕ × Bytes)
fill_slot blank m row index page = do
  offset ← data_by_index m index
  marked ← or_fail (write_at offset (1 ∷ []) page) out_of_range
  page' ← serialize_row blank row (offset + 1) marked
  actual_row ← deserialize_row m.schema (offset + 1) page'
  guard (eq_row actual_row row) assert_failed
  ok (some index, page')

-- The slot that the row went to, and the page after it.
unfoldable pub insert_row : ℕ → Marshal → Row → Bytes → Result (Option ℕ × Bytes)
unfolding fill_slot
insert_row blank m row page = find_free_slot m page >>= λ found. elim found [
  | none ↦ ok (none, page)
  | some index ↦ fill_slot blank m row index page
]

-- An empty row for a slot that is free.
unfoldable pub get_row : Marshal → ℕ → Bytes → Result Row
get_row m index page = do
  offset ← data_by_index m index
  header ← byte_at offset page
  if eqb header 0 then ok [] else deserialize_row m.schema (offset + 1) page

-- ===== src/Tests/Table.antt =====
-- Runs of src/transform and of src/table's page on rows of a number and a flag.
use simple_db.Base.{
  ◌+◌, ◌/◌, ◌≡◌, ◌≢◌, ◌≤◌, refl, true, List, [], ◌∷◌, Option, none, some, ok, err, arith, replicate,
  assert_failed,
}
use simple_db.Table.Schema.{boolean, uint64, Schema}
use simple_db.Table.Row.{flag, num, Row, eq_row}
use simple_db.Transform.Marshal.{
  Bytes, create, serialize_row, deserialize_row, calculate_row_space, fixed_row_space,
}
use simple_db.Transform.Marshal.RoundTrip.{Fits, IsSized, Written, deserialize-serialize}
use simple_db.Table.FixedTablePage.{page_size, zeros, insert_row, find_free_slot, data_by_index}
use simple_db.Table.FixedTablePage.Slots.{first_free, Represents}
use simple_db.Table.FixedTablePage.Insert.{
  insert_slot, insert_bytes, insert_row-Represents, Represents-zero,
}

abbrev pub columns : Schema
columns =
    record { name = "id"; type = uint64; length = 8 }
    ∷ record { name = "on"; type = boolean; length = 1 }
    ∷ []

abbrev pub row : Row
row = num 258 ∷ flag true ∷ []

pub row-Fits : Fits columns row
row-Fits = (omega arith, (tt, tt))

pub columns-IsSized : IsSized columns
columns-IsSized = (refl, (refl, tt))

pub columns_wide : calculate_row_space columns ≢ 0
unfolding calculate_row_space
columns_wide = omega arith

columns_room : 1 + calculate_row_space columns ≤ 12
unfolding calculate_row_space
columns_room = omega arith

deserialize-serialize_example :
    (page' : Bytes) × (serialize_row 0 row 1 (zeros 12) ≡ ok page')
    × Written columns row 1 (zeros 12) page'
deserialize-serialize_example =
    deserialize-serialize 0 columns row 1 (zeros 12) columns-IsSized row-Fits columns_room

row_bytes :
    serialize_row 0 row 1 (zeros 12) ≡ ok (0 ∷ 2 ∷ 1 ∷ 0 ∷ 0 ∷ 0 ∷ 0 ∷ 0 ∷ 0 ∷ 1 ∷ 0 ∷ 0 ∷ [])
unfolding serialize_row
row_bytes = refl

abbrev slots : List (Option Row)
slots = replicate (page_size / (1 + calculate_row_space columns)) none

fresh : Represents columns (zeros page_size) slots
fresh = Represents-zero columns page_size refl

insert_row-Represents_example :
    (page' : Bytes) × (insert_row 0 (create columns) row (zeros page_size)
      ≡ ok ((insert_slot row slots).0, page'))
    × (insert_bytes columns 0 row (first_free 0 slots) (zeros page_size) ≡ some page')
    × Represents columns page' (insert_slot row slots).1
insert_row-Represents_example =
    insert_row-Represents 0 columns row columns_wide columns-IsSized row-Fits (zeros page_size)
      slots fresh

-- The schema and the first row of example/main.cpp: a number's column has the length 4, and the
-- status is a number in a column of flags. The assert of insert_row fails.
abbrev example_columns : Schema
example_columns =
    record { name = "id"; type = uint64; length = 4 }
    ∷ record { name = "status"; type = boolean; length = 1 }
    ∷ record { name = "number"; type = uint64; length = 4 }
    ∷ []

example_fails :
    insert_row 0 (create example_columns) (num 0 ∷ num 0 ∷ num 100 ∷ []) (zeros 64)
    ≡ err assert_failed
unfolding insert_row serialize_row deserialize_row find_free_slot fixed_row_space
    calculate_row_space data_by_index eq_row
example_fails = refl

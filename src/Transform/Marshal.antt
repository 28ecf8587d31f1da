-- ===== src/Transform/Marshal.antt =====
-- src/transform/marshal.h and marshal.cpp: rows as the bytes of a page. A pointer into a page is an
-- offset. A copy that leaves the page is a fault; in C++ it would run into the next frame.
pub mod RoundTrip
pub mod Typed
use simple_db.Base.{
  ℕ, zero, suc, ◌+◌, ◌*◌, ◌/◌, ◌%◌, Bool, true, false, not, List, [], ◌∷◌, ◌++◌, Option, none, some,
  Result, ok, err, ◌>>=◌, ◌>>◌, guard, or_fail, assert_failed, out_of_range, invalid_bool, length,
  eqb, if◌then◌else◌,
}
use simple_db.Table.Schema.{ColumnType, boolean, uint64, Column, Schema}
use simple_db.Table.Row.{Attribute, null, flag, num, Row}

abbrev pub Bytes : Type 0
Bytes = List ℕ

-- The object representation of an unsigned integer of `n` bytes, on a little-endian machine.
unfoldable pub bytes_of : ℕ → ℕ → Bytes
bytes_of zero v = []
bytes_of (suc n) v = (v % 256) ∷ bytes_of n (v / 256)

unfoldable pub value_of : Bytes → ℕ
value_of [] = 0
value_of (b ∷ bs) = b + 256 * value_of bs

abbrev prepend : ℕ → Option Bytes → Option Bytes
prepend b none = none
prepend b (some bs) = some (b ∷ bs)

-- memcpy to and from an offset of a page.
unfoldable pub write_at : ℕ → Bytes → Bytes → Option Bytes
write_at zero [] page = some page
write_at zero (b ∷ bs) [] = none
write_at zero (b ∷ bs) (p ∷ page) = prepend b (write_at zero bs page)
write_at (suc offset) bs [] = none
write_at (suc offset) bs (p ∷ page) = prepend p (write_at offset bs page)

unfoldable pub read_at : ℕ → ℕ → Bytes → Option Bytes
read_at zero zero page = some []
read_at zero (suc n) [] = none
read_at zero (suc n) (p ∷ page) = prepend p (read_at zero n page)
read_at (suc offset) n [] = none
read_at (suc offset) n (p ∷ page) = read_at offset n page

abbrev bool_byte : Bool → ℕ
bool_byte true = 1
bool_byte false = 0

-- What serialize_value copies. The one byte of a NullAttribute is not specified: `blank` is its value.
unfoldable pub image : ℕ → Attribute → Bytes
unfolding bytes_of
image blank null = blank ∷ []
image blank (flag b) = bool_byte b ∷ []
image blank (num v) = bytes_of 8 v

unfoldable pub serialize_row : ℕ → Row → ℕ → Bytes → Result Bytes
unfolding write_at image
serialize_row blank [] offset page = ok page
serialize_row blank (v ∷ row) offset page = do
  let bytes = image blank v
  page' ← or_fail (write_at offset bytes page) out_of_range
  guard (not (eqb offset (offset + length bytes))) assert_failed
  serialize_row blank row (offset + length bytes) page'

abbrev pub size_of : ColumnType → ℕ
size_of boolean = 1
size_of uint64 = 8

-- A bool with another representation than these two is not defined.
abbrev pub bool_of : ℕ → Result Attribute
bool_of zero = ok (flag false)
bool_of (suc zero) = ok (flag true)
bool_of (suc (suc n)) = err invalid_bool

-- deserialize_value at the type of the column.
unfoldable pub attribute_of : ColumnType → Bytes → Result Attribute
unfolding value_of
attribute_of boolean bytes = bool_of (value_of bytes)
attribute_of uint64 bytes = ok (num (value_of bytes))

unfoldable pub deserialize_row : Schema → ℕ → Bytes → Result Row
unfolding read_at attribute_of
deserialize_row [] offset page = ok []
deserialize_row (column ∷ schema) offset page = do
  bytes ← or_fail (read_at offset (size_of column.type) page) out_of_range
  field ← attribute_of column.type bytes
  guard (not (eqb offset (offset + size_of column.type))) assert_failed
  row ← deserialize_row schema (offset + size_of column.type) page
  ok (field ∷ row)

-- Both column types of the source are supported, so no schema is refused.
unfoldable pub calculate_row_space : Schema → ℕ
calculate_row_space [] = 0
calculate_row_space (column ∷ schema) = column.length + calculate_row_space schema

pub record Marshal : Type 0 where
  pub schema : Schema
  pub row_space : ℕ

abbrev pub create : Schema → Marshal
create schema = record { schema = schema; row_space = calculate_row_space schema }

unfoldable pub fixed_row_space : Marshal → Result ℕ
fixed_row_space m = do guard (not (eqb m.row_space 0)) assert_failed; ok m.row_space

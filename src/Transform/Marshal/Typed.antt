-- ===== src/Transform/Marshal/Typed.antt =====
-- The types of the values that marshal.cpp reads.
use simple_db.Base.{
  ℕ, zero, suc, ◌+◌, ◌≡◌, not, [], ◌∷◌, ok, guard, or_fail, assert_failed, out_of_range, on_ok, eqb,
}
use mathlib.Core.Path.{subst}
use simple_db.Table.Schema.{ColumnType, boolean, uint64, Schema}
use simple_db.Table.Row.{Attribute, flag, num, Row}
use simple_db.Transform.Marshal.{
  Bytes, value_of, read_at, size_of, attribute_of, deserialize_row, bool_of,
}

-- A value of the column's type.
abbrev IsOf : ColumnType → Attribute → Type 0
IsOf boolean (flag b) = Unit
IsOf uint64 (num v) = Unit
IsOf _ _ = ⊥

-- As many values as there are columns, each of its column's type.
abbrev pub IsTyped : Schema → Row → Type 0
IsTyped [] [] = Unit
IsTyped (column ∷ schema) (v ∷ row) = IsOf column.type v × IsTyped schema row
IsTyped _ _ = ⊥

IsOf-same : (type : ColumnType) {v w : Attribute} → ok v ≡ ok w → IsOf type v → IsOf type w
IsOf-same type {v} {w} e h = let same : v ≡ w = cc in subst (IsOf type) same h

bool_of-IsOf : (n : ℕ) (v : Attribute) → bool_of n ≡ ok v → IsOf boolean v
bool_of-IsOf zero v h = IsOf-same boolean h tt
bool_of-IsOf (suc zero) v h = IsOf-same boolean h tt
bool_of-IsOf (suc (suc n)) v h = cc

attribute_of-IsOf :
    (type : ColumnType) (bytes : Bytes) (v : Attribute)
    → attribute_of type bytes ≡ ok v
    → IsOf type v
unfolding attribute_of
attribute_of-IsOf boolean bytes v h = bool_of-IsOf (value_of bytes) v h
attribute_of-IsOf uint64 bytes v h = IsOf-same uint64 h tt

pub deserialize_row-IsTyped :
    (schema : Schema) (offset : ℕ) (page : Bytes) (row : Row)
    → deserialize_row schema offset page ≡ ok row
    → IsTyped schema row
unfolding deserialize_row
deserialize_row-IsTyped [] offset page row h =
    let same : [] ≡ row = cc in subst (IsTyped []) same tt
deserialize_row-IsTyped (column ∷ schema) offset page row h =
    on_ok (or_fail (read_at offset (size_of column.type) page) out_of_range) _ h λ bytes read h₁.
      on_ok (attribute_of column.type bytes) _ h₁ λ v is h₂.
        on_ok (guard (not (eqb offset (offset + size_of column.type))) assert_failed) _ h₂
          λ u moved h₃.
            on_ok (deserialize_row schema (offset + size_of column.type) page) _ h₃
              λ others read_others h₄.
                let same : v ∷ others ≡ row = cc in
                subst (IsTyped (column ∷ schema)) same (
                  attribute_of-IsOf column.type bytes v is,
                  deserialize_row-IsTyped schema _ page others read_others,
                )

-- ===== src/Table/Row.antt =====
-- src/table/row.h: the values of a row, and where a row lies.
use Prim.Native.String.{String}
use simple_db.Base.{
  ℕ, ◌≡◌, ◌↔◌, refl, Bool, true, false, ◌&&◌, List, [], ◌∷◌, arith, eqb, Eq, Bool-cases, inl, inr,
}

-- std::variant<NullAttribute, bool, uint64_t>.
pub data Attribute : Type 0 where
  null : Attribute
  flag : Bool → Attribute
  num : ℕ → Attribute

abbrev pub Row : Type 0
Row = List Attribute

pub record RowId : Type 0 where
  pub page_index : ℕ
  pub row_index : ℕ

-- operator== of RowID.
abbrev eq_row_id : RowId → RowId → Bool
eq_row_id a b = eqb a.page_index b.page_index && eqb a.row_index b.row_index

pub eq_row_id_iff : (a b : RowId) → (eq_row_id a b ≡ true) ↔ (a ≡ b)
eq_row_id_iff a b = ground arith

instance abbrev pub row_id_eq : Eq RowId
row_id_eq = record { same = eq_row_id; same_iff = eq_row_id_iff }

-- operator<< of the values of a row, on a stream that writes a number by `size`. Without boolalpha a
-- bool is a digit.
abbrev pub print_attribute : (ℕ → String) → Attribute → String
print_attribute size null = "null"
print_attribute size (flag true) = "1"
print_attribute size (flag false) = "0"
print_attribute size (num n) = size n

abbrev eq_flag : Bool → Bool → Bool
eq_flag true b = b
eq_flag false true = false
eq_flag false false = true

-- operator== of the variant and of the vector.
abbrev eq_attribute : Attribute → Attribute → Bool
eq_attribute null null = true
eq_attribute (flag a) (flag b) = eq_flag a b
eq_attribute (num a) (num b) = eqb a b
eq_attribute _ _ = false

unfoldable pub eq_row : Row → Row → Bool
eq_row [] [] = true
eq_row (a ∷ row) (b ∷ row') = eq_attribute a b && eq_row row row'
eq_row _ _ = false

pub eq_row_refl : (row : Row) → eq_row row row ≡ true
unfolding eq_row
eq_row_refl [] = refl
eq_row_refl (null ∷ row) = eq_row_refl row
eq_row_refl (flag true ∷ row) = eq_row_refl row
eq_row_refl (flag false ∷ row) = eq_row_refl row
eq_row_refl (num n ∷ row) = ground (arith, eq_row_refl row)

eq_attribute_eq : (a b : Attribute) → eq_attribute a b ≡ true → a ≡ b
eq_attribute_eq null null h = refl
eq_attribute_eq null (flag c) h = cc
eq_attribute_eq null (num n) h = cc
eq_attribute_eq (flag b) null h = cc
eq_attribute_eq (flag true) (flag c) h = ground arith
eq_attribute_eq (flag false) (flag true) h = cc
eq_attribute_eq (flag false) (flag false) h = refl
eq_attribute_eq (flag b) (num n) h = ground arith
eq_attribute_eq (num n) null h = cc
eq_attribute_eq (num n) (flag c) h = cc
eq_attribute_eq (num n) (num m) h = ground arith

-- Rows that pass the test of operator== are equal.
pub eq_row_sound : (row row' : Row) → eq_row row row' ≡ true → row ≡ row'
unfolding eq_row
eq_row_sound [] [] h = refl
eq_row_sound [] (b ∷ row') h = cc
eq_row_sound (a ∷ row) [] h = cc
eq_row_sound (a ∷ row) (b ∷ row') h = elim (Bool-cases (eq_attribute a b)) [
  | inl same ↦
      let first = eq_attribute_eq a b same in let others = eq_row_sound row row' (grind arith) in cc
  | inr apart ↦ grind arith
]

-- ===== src/Transform/Marshal/RoundTrip.antt =====
-- What marshal.cpp writes, and that it reads it back.
use simple_db.Base.{
  ℕ, zero, suc, ◌+◌, ◌*◌, ◌/◌, ◌^◌, ◌≤◌, ◌<◌, ◌≡◌, refl, sym, ap, ◌∙◌, true, false, [], ◌∷◌, ◌++◌,
  some, ok, arith, length, length-append, get_elem?, ◌⊎◌, inl, inr,
}
use mathlib.Core.List.{append_assoc}
use native.Mathlib.Nat.{pow-suc}
use simple_db.Table.Schema.{ColumnType, boolean, uint64, Schema}
use simple_db.Table.Row.{Attribute, null, flag, num, Row}
use simple_db.Transform.Marshal.{
  Bytes, bytes_of, value_of, write_at, read_at, image, serialize_row, size_of, attribute_of,
  deserialize_row, calculate_row_space,
}

pub value_of-bytes_of : (n v : ℕ) → v < 256 ^ n → value_of (bytes_of n v) ≡ v
unfolding bytes_of value_of
value_of-bytes_of zero v h = omega arith
value_of-bytes_of (suc n) v h =
    let bound : v < 256 * 256 ^ n = omega (arith, pow-suc 256 n) in
    omega (arith, value_of-bytes_of n (v / 256) (omega arith))

length-bytes_of : (n v : ℕ) → length (bytes_of n v) ≡ n
unfolding bytes_of
length-bytes_of zero v = refl
length-bytes_of (suc n) v = ap suc (length-bytes_of n (v / 256))

-- A write replaces as many bytes as it brings.
pub write_at-append :
    (front old back bs : Bytes)
    → length bs ≡ length old
    → write_at (length front) bs (front ++ (old ++ back)) ≡ some (front ++ (bs ++ back))
unfolding write_at
write_at-append [] [] back [] h = refl
write_at-append [] (o ∷ old) back [] h = absurd (omega arith)
write_at-append [] [] back (b ∷ bs) h = absurd (omega arith)
write_at-append [] (o ∷ old) back (b ∷ bs) h = rw (write_at-append [] old back bs (omega arith))
write_at-append (f ∷ front) old back bs h = rw (write_at-append front old back bs h)

pub read_at-append :
    (front mid back : Bytes)
    → read_at (length front) (length mid) (front ++ (mid ++ back)) ≡ some mid
unfolding read_at
read_at-append [] [] back = refl
read_at-append [] (m ∷ mid) back = rw (read_at-append [] mid back)
read_at-append (f ∷ front) mid back = read_at-append front mid back

-- A value of the column's type, within 64 bits.
abbrev FitsColumn : ColumnType → Attribute → Type 0
FitsColumn boolean (flag b) = Unit
FitsColumn uint64 (num v) = v < 256 ^ 8
FitsColumn _ _ = ⊥

abbrev pub Fits : Schema → Row → Type 0
Fits [] [] = Unit
Fits (column ∷ schema) (v ∷ row) = FitsColumn column.type v × Fits schema row
Fits _ _ = ⊥

-- The length of every column is the size of its type.
abbrev pub IsSized : Schema → Type 0
IsSized [] = Unit
IsSized (column ∷ schema) = (column.length ≡ size_of column.type) × IsSized schema

abbrev pub image_row : ℕ → Row → Bytes
image_row blank [] = []
image_row blank (v ∷ row) = image blank v ++ image_row blank row

image-FitsColumn :
    (blank : ℕ) (type : ColumnType) (v : Attribute)
    → FitsColumn type v
    → (length (image blank v) ≡ size_of type) × (attribute_of type (image blank v) ≡ ok v)
unfolding image attribute_of value_of
image-FitsColumn blank boolean null h = absurd h
image-FitsColumn blank boolean (flag true) h = (refl, refl)
image-FitsColumn blank boolean (flag false) h = (refl, refl)
image-FitsColumn blank boolean (num v) h = absurd h
image-FitsColumn blank uint64 null h = absurd h
image-FitsColumn blank uint64 (flag b) h = absurd h
image-FitsColumn blank uint64 (num v) h =
    (length-bytes_of 8 v, ap (λ n. ok (num n)) (value_of-bytes_of 8 v h))

image_nonempty : (blank : ℕ) (v : Attribute) → 0 < length (image blank v)
unfolding image
image_nonempty blank null = omega arith
image_nonempty blank (flag b) = omega arith
image_nonempty blank (num v) = omega (arith, length-bytes_of 8 v)

-- The bytes of a row fill the space that the schema gives it.
pub length-image_row :
    (blank : ℕ) (schema : Schema) (row : Row)
    → IsSized schema
    → Fits schema row
    → length (image_row blank row) ≡ calculate_row_space schema
unfolding calculate_row_space
length-image_row blank [] [] z h = refl
length-image_row blank [] (v ∷ row) z h = absurd h
length-image_row blank (column ∷ schema) [] z h = absurd h
length-image_row blank (column ∷ schema) (v ∷ row) z h = omega (
  arith,
  length-append (image blank v) (image_row blank row),
  (image-FitsColumn blank column.type v h.0).0,
  length-image_row blank schema row z.1 h.1,
)

pub split_at :
    (n : ℕ) (bs : Bytes)
    → n ≤ length bs
    → (front : Bytes) × (back : Bytes) × (bs ≡ front ++ back) × (length front ≡ n)
split_at zero bs h = ([], bs, refl, refl)
split_at (suc n) [] h = absurd (omega arith)
split_at (suc n) (b ∷ bs) h =
    let (front, back, e, l) = split_at n bs (omega arith) in
    (b ∷ front, back, ap (λ l. b ∷ l) e, ap suc l)

-- Serializing never fails where the row has room, and writes its image there and nothing else.
pub serialize_row_lem :
    (blank : ℕ) (row : Row) (front old back : Bytes)
    → length old ≡ length (image_row blank row)
    → serialize_row blank row (length front) (front ++ (old ++ back))
      ≡ ok (front ++ (image_row blank row ++ back))
unfolding serialize_row
serialize_row_lem blank [] front [] back h = refl
serialize_row_lem blank [] front (o ∷ old) back h = absurd (omega arith)
serialize_row_lem blank (v ∷ row) front old back h =
    let bytes = image blank v in
    let rest = image_row blank row in
    let (o₁, o₂, e, l) = split_at (length bytes) old (omega (arith, length-append bytes rest)) in
    let grown : length (front ++ bytes) ≡ length front + length bytes = length-append front bytes in
    let room : length o₂ ≡ length rest =
      omega (arith, ap length e, length-append o₁ o₂, length-append bytes rest) in
    rw
      (
        e,
        append_assoc o₁ o₂ back,
        write_at-append front o₁ (o₂ ++ back) bytes (sym l),
        ← grown,
        ← append_assoc front bytes (o₂ ++ back),
        append_assoc bytes rest back,
        ← append_assoc front bytes (rest ++ back),
      )
      (ground (
        arith,
        grown,
        image_nonempty blank v,
        serialize_row_lem blank row (front ++ bytes) o₂ back room,
      ))

-- A row that fits the schema is read back from its image.
pub deserialize_row_lem :
    (blank : ℕ) (schema : Schema) (row : Row) (front back : Bytes)
    → Fits schema row
    → deserialize_row schema (length front) (front ++ (image_row blank row ++ back)) ≡ ok row
unfolding deserialize_row
deserialize_row_lem blank [] [] front back h = refl
deserialize_row_lem blank [] (v ∷ row) front back h = absurd h
deserialize_row_lem blank (column ∷ schema) [] front back h = absurd h
deserialize_row_lem blank (column ∷ schema) (v ∷ row) front back h =
    let bytes = image blank v in
    let rest = image_row blank row in
    let (size, value) = image-FitsColumn blank column.type v h.0 in
    let grown : length (front ++ bytes) ≡ length front + size_of column.type =
      length-append front bytes ∙ ap (λ n. length front + n) size in
    rw
      (
        ← size,
        append_assoc bytes rest back,
        read_at-append front bytes (rest ++ back),
        value,
        size,
        ← grown,
        ← append_assoc front bytes (rest ++ back),
      )
      (ground (
        arith,
        grown,
        image_nonempty blank v,
        deserialize_row_lem blank schema row (front ++ bytes) back h.1,
      ))

get_elem?-append_right :
    (xs ys back : Bytes) (i : ℕ)
    → length xs ≡ length ys
    → length xs ≤ i
    → get_elem? (xs ++ back) i ≡ get_elem? (ys ++ back) i
get_elem?-append_right [] [] back i e h = refl
get_elem?-append_right [] (y ∷ ys) back i e h = absurd (omega arith)
get_elem?-append_right (x ∷ xs) [] back i e h = absurd (omega arith)
get_elem?-append_right (x ∷ xs) (y ∷ ys) back zero e h = absurd (omega arith)
get_elem?-append_right (x ∷ xs) (y ∷ ys) back (suc i) e h =
    get_elem?-append_right xs ys back i (omega arith) (omega arith)

get_elem?-outside :
    (front xs ys back : Bytes) (i : ℕ)
    → length xs ≡ length ys
    → (i < length front) ⊎ (length front + length xs ≤ i)
    → get_elem? (front ++ (xs ++ back)) i ≡ get_elem? (front ++ (ys ++ back)) i
get_elem?-outside [] xs ys back i e (inl h) = absurd (omega arith)
get_elem?-outside [] xs ys back i e (inr h) = get_elem?-append_right xs ys back i e (omega arith)
get_elem?-outside (f ∷ front) xs ys back zero e h = refl
get_elem?-outside (f ∷ front) xs ys back (suc i) e (inl h) =
    get_elem?-outside front xs ys back i e (inl (omega arith))
get_elem?-outside (f ∷ front) xs ys back (suc i) e (inr h) =
    get_elem?-outside front xs ys back i e (inr (omega arith))

-- What is left of a page where a row was written: it reads back as the row, and every byte outside
-- of the row's space is as it was.
pub record Written (schema : Schema) (row : Row) (offset : ℕ) (page page' : Bytes) : Type 0 where
  pub reads : deserialize_row schema offset page' ≡ ok row
  pub same_length : length page' ≡ length page
  pub outside :
      (i : ℕ)
      → (i < offset) ⊎ (offset + calculate_row_space schema ≤ i)
      → get_elem? page' i ≡ get_elem? page i

-- A page cut where a piece of it begins and ends.
pub cut :
    (offset size : ℕ) (page : Bytes)
    → offset + size ≤ length page
    → (front : Bytes) × (old : Bytes) × (back : Bytes) × (page ≡ front ++ (old ++ back))
      × (length front ≡ offset)
      × (length old ≡ size)
cut offset size page room =
    let (front, rest, e, l) = split_at offset page (omega arith) in
    let (old, back, e', l') =
      split_at size rest (omega (arith, ap length e, length-append front rest)) in
    (front, old, back, e ∙ ap (λ bs. front ++ bs) e', l, l')

Written-between :
    (blank : ℕ) (schema : Schema) (row : Row) (front old back : Bytes)
    → IsSized schema
    → Fits schema row
    → length old ≡ calculate_row_space schema
    → (page' : Bytes) × (serialize_row blank row (length front) (front ++ (old ++ back)) ≡ ok page')
      × Written schema row (length front) (front ++ (old ++ back)) page'
Written-between blank schema row front old back z h l =
    let full = length-image_row blank schema row z h in
    (
      front ++ (image_row blank row ++ back),
      serialize_row_lem blank row front old back (l ∙ sym full),
      record {
        reads = deserialize_row_lem blank schema row front back h;
        same_length = omega (
          arith,
          full,
          length-append front (image_row blank row ++ back),
          length-append (image_row blank row) back,
          length-append front (old ++ back),
          length-append old back,
        );
        outside = λ i out.
            get_elem?-outside front (image_row blank row) old back i (full ∙ sym l) (rw full out);
      },
    )

-- Where each column's length is the size of its type, a row that fits the schema and has room on
-- the page is written without a fault. It is then read back as it was, and nothing outside of its
-- space changes.
pub deserialize-serialize :
    (blank : ℕ) (schema : Schema) (row : Row) (offset : ℕ) (page : Bytes)
    → IsSized schema
    → Fits schema row
    → offset + calculate_row_space schema ≤ length page
    → (page' : Bytes) × (serialize_row blank row offset page ≡ ok page')
      × Written schema row offset page page'
deserialize-serialize blank schema row offset page z h room =
    go (cut offset (calculate_row_space schema) page room)
  where
    go :
        ((front : Bytes) × (old : Bytes) × (back : Bytes) × (page ≡ front ++ (old ++ back))
          × (length front ≡ offset)
          × (length old ≡ calculate_row_space schema))
        → (page' : Bytes) × (serialize_row blank row offset page ≡ ok page')
          × Written schema row offset page page'
    go (front, old, back, e, l, l') =
        rw (e, ← l) (Written-between blank schema row front old back z h l')

-- ===== src/Table/FixedTablePage/Slots.antt =====
-- A page seen as a list of slots, and what fixed_table_page.cpp reads of it.
use simple_db.Base.{
  ℕ, zero, suc, ◌+◌, ◌*◌, ◌/◌, ◌≡◌, ◌≢◌, refl, sym, ap, ◌∙◌, List, [], ◌∷◌, ◌++◌, Option, none,
  some, ok, arith, length, length-append, get_elem?, set, eqb, false,
}
use mathlib.Core.List.{append_assoc}
use simple_db.Table.Schema.{Schema}
use simple_db.Table.Row.{Row}
use simple_db.Transform.Marshal.{
  Bytes, create, fixed_row_space, calculate_row_space, deserialize_row,
}
use simple_db.Table.FixedTablePage.{
  page_size, max_row_index, data_by_index, find_from, find_free_slot, get_row,
}

-- The free slot with the lowest index, counted from `i`.
abbrev pub first_free : ℕ → List (Option Row) → Option ℕ
first_free i [] = none
first_free i (none ∷ slots) = some i
first_free i (some row ∷ slots) = first_free (i + 1) slots

abbrev pub row_of : Option Row → Row
row_of none = []
row_of (some row) = row

taken : (h : ℕ) → eqb (suc h) 0 ≡ false
taken h = ground arith

module _ (schema : Schema) where
  abbrev pub slot_size : ℕ
  slot_size = 1 + calculate_row_space schema

  -- Bytes that read as the row wherever they stand.
  abbrev pub Reads : Bytes → Row → Type 0
  Reads bytes row =
      (front back : Bytes)
      → deserialize_row schema (length front) (front ++ (bytes ++ back)) ≡ ok row

  -- The bytes of a slot.
  abbrev pub Slot : Option Row → Bytes → Type 0
  Slot none bytes = (d : Bytes) × (bytes ≡ 0 ∷ d) × (length d ≡ calculate_row_space schema)
  Slot (some row) bytes =
      (h : ℕ) × (d : Bytes) × (bytes ≡ suc h ∷ d)
      × (length d ≡ calculate_row_space schema)
      × Reads d row

  -- The slots one after the other, with whatever follows them.
  abbrev pub Layout : List (Option Row) → Bytes → Type 0
  Layout [] page = Unit
  Layout (s ∷ slots) page =
      (bytes : Bytes) × (rest : Bytes) × (page ≡ bytes ++ rest) × Slot s bytes × Layout slots rest

  -- A page of 4096 bytes with as many slots as fit.
  pub record Represents (page : Bytes) (slots : List (Option Row)) : Type 0 where
    pub layout : Layout slots page
    pub full : length page ≡ page_size
    pub count : length slots ≡ page_size / slot_size

  -- The place of one slot, and the page with another slot there.
  pub record Place (page : Bytes) (slots : List (Option Row)) (i : ℕ) (s : Option Row)
      : Type 0 where
    pub front : Bytes
    pub bytes : Bytes
    pub back : Bytes
    pub split : page ≡ front ++ (bytes ++ back)
    pub at : length front ≡ i * slot_size
    pub slot : Slot s bytes
    pub replace :
        (s' : Option Row) (bytes' : Bytes)
        → Slot s' bytes'
        → Layout (set slots i s') (front ++ (bytes' ++ back))

  pub length-Slot : (s : Option Row) (bytes : Bytes) → Slot s bytes → length bytes ≡ slot_size
  length-Slot none bytes (d, e, l) = omega (arith, ap length e)
  length-Slot (some row) bytes (h, d, e, l, r) = omega (arith, ap length e)

  pub Layout-Place :
      (slots : List (Option Row)) (page : Bytes) (i : ℕ) (s : Option Row)
      → Layout slots page
      → get_elem? slots i ≡ some s
      → Place page slots i s
  Layout-Place [] page i s l g = cc
  Layout-Place (x ∷ slots) page zero s (bytes, rest, e, b, r) g =
      let same : s ≡ x = cc in
      record {
        front = [];
        bytes = bytes;
        back = rest;
        split = e;
        at = omega arith;
        slot = rw same b;
        replace = λ s' bytes' b'. (bytes', rest, refl, b', r);
      }
  Layout-Place (x ∷ slots) page (suc i) s (bytes, rest, e, b, r) g =
      let p = Layout-Place slots rest i s r g in
      record {
        front = bytes ++ p.front;
        bytes = p.bytes;
        back = p.back;
        split = e ∙ ap (λ l. bytes ++ l) p.split ∙ sym (append_assoc bytes p.front _);
        at = omega (arith, length-append bytes p.front, length-Slot x bytes b, p.at);
        slot = p.slot;
        replace = λ s' bytes' b'. (
          bytes,
          p.front ++ (bytes' ++ p.back),
          append_assoc bytes p.front _,
          b,
          p.replace s' bytes' b',
        );
      }

  get_elem?-front :
      (front : Bytes) (b : ℕ) (rest : Bytes) → get_elem? (front ++ b ∷ rest) (length front) ≡ some b
  get_elem?-front [] b rest = refl
  get_elem?-front (f ∷ front) b rest = get_elem?-front front b rest

  -- The assert of fixed_row_space holds for a schema that takes up space.
  module _ (wide : calculate_row_space schema ≢ 0) where
    pub fixed_row_space_lem : fixed_row_space (create schema) ≡ ok (calculate_row_space schema)
    unfolding fixed_row_space
    fixed_row_space_lem = ground arith

    pub data_by_index_lem : (i : ℕ) → data_by_index (create schema) i ≡ ok (i * slot_size)
    unfolding data_by_index
    data_by_index_lem i = rw fixed_row_space_lem

    pub find_from_lem :
        (slots : List (Option Row)) (front rest : Bytes) (i : ℕ)
        → length front ≡ i * slot_size
        → Layout slots rest
        → find_from (length slots) i (create schema) (front ++ rest) ≡ ok (first_free i slots)
    unfolding find_from
    find_from_lem [] front rest i at l = refl
    find_from_lem (none ∷ slots) front rest i at (bytes, rest', e, (d, b, len), l) =
        rw (e, b, data_by_index_lem i, ← at, get_elem?-front front 0 (d ++ rest'))
    find_from_lem (some row ∷ slots) front rest i at (bytes, rest', e, (h, d, b, len, r), l) =
        rw (e, b, data_by_index_lem i, ← at, get_elem?-front front (suc h) (d ++ rest'), taken h)
          (rw (← append_assoc front (suc h ∷ d) rest') (
            find_from_lem slots (front ++ suc h ∷ d) rest' (i + 1)
              (omega (arith, length-append front (suc h ∷ d), at)) l))

    -- On a page that represents slots the search never fails, and finds the first free slot.
    pub find_free_slot_lem :
        (page : Bytes) (slots : List (Option Row))
        → Represents page slots
        → find_free_slot (create schema) page ≡ ok (first_free 0 slots)
    unfolding find_free_slot max_row_index
    find_free_slot_lem page slots rep =
        rw (fixed_row_space_lem, ← rep.count)
          (find_from_lem slots [] page 0 (omega arith) rep.layout)

    get_row_at :
        (s : Option Row) (front bytes back : Bytes) (i : ℕ)
        → length front ≡ i * slot_size
        → Slot s bytes
        → get_row (create schema) i (front ++ (bytes ++ back)) ≡ ok (row_of s)
    unfolding get_row
    get_row_at none front bytes back i at (d, b, len) =
        rw (b, data_by_index_lem i, ← at, get_elem?-front front 0 (d ++ back))
    get_row_at (some row) front bytes back i at (h, d, b, len, r) =
        let shift : length (front ++ suc h ∷ []) ≡ length front + 1 =
          length-append front (suc h ∷ []) in
        rw
          (
            b,
            data_by_index_lem i,
            ← at,
            get_elem?-front front (suc h) (d ++ back),
            taken h,
            ← shift,
          )
          (rw (← append_assoc front (suc h ∷ []) (d ++ back)) (r (front ++ suc h ∷ []) back))

    -- Reading a slot of such a page never fails, and gives its row, or an empty row if it is free.
    pub get_row_lem :
        (page : Bytes) (slots : List (Option Row)) (i : ℕ) (s : Option Row)
        → Represents page slots
        → get_elem? slots i ≡ some s
        → get_row (create schema) i page ≡ ok (row_of s)
    get_row_lem page slots i s rep g =
        let p = Layout-Place slots page i s rep.layout g in
        rw p.split (get_row_at s p.front p.bytes p.back i p.at p.slot)

-- ===== src/Table/FixedTablePage/Insert.antt =====
-- FixedTablePage::insert_row on a page seen as a list of slots.
use simple_db.Base.{
  ℕ, zero, suc, ◌+◌, ◌-◌, ◌*◌, ◌/◌, ◌≤◌, ◌≡◌, ◌≢◌, refl, sym, ap, ◌∙◌, List, [], ◌∷◌, ◌++◌, Option,
  none, some, ok, arith, length, length-append, length-set, replicate, length-replicate, get_elem?,
  set,
}
use mathlib.Core.List.{append_assoc}
use native.Mathlib.Nat.{sub_self}
use Prim.Native.Nat.add
use simple_db.Table.Schema.{Schema}
use simple_db.Table.Row.{Row, eq_row_refl}
use simple_db.Transform.Marshal.{Bytes, create, calculate_row_space, write_at}
use simple_db.Transform.Marshal.RoundTrip.{
  Fits, IsSized, image_row, length-image_row, write_at-append, serialize_row_lem,
  deserialize_row_lem,
}
use simple_db.Table.FixedTablePage.{page_size, zeros, fill_slot, insert_row, get_row}
use simple_db.Table.FixedTablePage.Slots.{
  first_free, row_of, slot_size, Slot, length-Slot, Layout, Represents, Place, Layout-Place,
  data_by_index_lem, find_free_slot_lem,
}

abbrev pub insert_at : Option ℕ → Row → List (Option Row) → Option ℕ × List (Option Row)
insert_at none row slots = (none, slots)
insert_at (some i) row slots = (some i, set slots i (some row))

-- The row goes to the first free slot, if there is one.
abbrev pub insert_slot : Row → List (Option Row) → Option ℕ × List (Option Row)
insert_slot row slots = insert_at (first_free 0 slots) row slots

-- The page with the row's bytes in a slot, behind the byte that marks it as taken; the page as it is
-- for no slot.
abbrev pub insert_bytes : Schema → ℕ → Row → Option ℕ → Bytes → Option Bytes
insert_bytes schema blank row none page = some page
insert_bytes schema blank row (some i) page =
    write_at (i * slot_size schema) (1 ∷ image_row blank row) page

zeros-add : (m n : ℕ) → zeros (m + n) ≡ zeros m ++ zeros n
zeros-add zero n = ap zeros (add.zero n)
zeros-add (suc m) n = ap zeros (add.suc m n) ∙ ap (λ l. 0 ∷ l) (zeros-add m n)

pub first_free-get :
    (slots : List (Option Row)) (k j : ℕ)
    → first_free k slots ≡ some j
    → (k ≤ j) × (get_elem? slots (j - k) ≡ some none)
first_free-get [] k j e = cc
first_free-get (none ∷ slots) k j e =
    let same : k ≡ j = cc in rw same (omega arith, rw (sub_self j))
first_free-get (some row ∷ slots) k j e =
    let (le, g) = first_free-get slots (k + 1) j e in
    let step : j - k ≡ suc (j - (k + 1)) = omega arith in (omega arith, rw step g)

-- With no slot free the page stays as it is, whatever the row.
pub insert_row_full :
    (blank : ℕ) (schema : Schema) (row : Row) (page : Bytes) (slots : List (Option Row))
    → calculate_row_space schema ≢ 0
    → Represents schema page slots
    → first_free 0 slots ≡ none
    → insert_row blank (create schema) row page ≡ ok (none, page)
unfolding insert_row
insert_row_full blank schema row page slots wide rep full =
    rw (find_free_slot_lem schema wide page slots rep, full)

module _ (blank : ℕ) (schema : Schema) (row : Row) (wide : calculate_row_space schema ≢ 0)
    (sized : IsSized schema) (fits : Fits schema row) where
  new-Slot : Slot schema (some row) (1 ∷ image_row blank row)
  new-Slot = (
    0,
    image_row blank row,
    refl,
    length-image_row blank schema row sized fits,
    λ front back. deserialize_row_lem blank schema row front back fits,
  )

  same_length :
      (front bytes back : Bytes)
      → length bytes ≡ 1 + calculate_row_space schema
      → length (front ++ ((1 ∷ image_row blank row) ++ back)) ≡ length (front ++ (bytes ++ back))
  same_length front bytes back e = omega (
    arith,
    length-append front ((1 ∷ image_row blank row) ++ back),
    length-append front (bytes ++ back),
    length-append bytes back,
    length-append (1 ∷ image_row blank row) back,
    length-image_row blank schema row sized fits,
  )

  fill_at :
      (front bytes back : Bytes) (i : ℕ)
      → length front ≡ i * (1 + calculate_row_space schema)
      → Slot schema none bytes
      → fill_slot blank (create schema) row i (front ++ (bytes ++ back))
        ≡ ok (some i, front ++ ((1 ∷ image_row blank row) ++ back))
  unfolding fill_slot
  fill_at front bytes back i at (d, b, len) =
      let head : length (front ++ 1 ∷ []) ≡ length front + 1 = length-append front (1 ∷ []) in
      let room : length d ≡ length (image_row blank row) =
        len ∙ sym (length-image_row blank schema row sized fits) in
      rw (
        b,
        data_by_index_lem schema wide i,
        ← at,
        write_at-append front (0 ∷ []) (d ++ back) (1 ∷ []) refl,
        ← head,
        ← append_assoc front (1 ∷ []) (d ++ back),
        serialize_row_lem blank row (front ++ 1 ∷ []) d back room,
        deserialize_row_lem blank schema row (front ++ 1 ∷ []) back fits,
        eq_row_refl row,
        append_assoc front (1 ∷ []) (image_row blank row ++ back),
      )

  -- On a page that represents slots, with columns of their types' sizes and at least one, an insert of a
  -- row that fits never fails. The row goes to the first free slot, and the page then represents the
  -- slots with the row there; its bytes are written over that slot, and every other byte of the page
  -- stays. With no slot free the answer says so and the page stays as it is.
  pub insert_row-Represents :
      (page : Bytes) (slots : List (Option Row))
      → Represents schema page slots
      → (page' : Bytes) × (insert_row blank (create schema) row page
          ≡ ok ((insert_slot row slots).0, page'))
        × (insert_bytes schema blank row (first_free 0 slots) page ≡ some page')
        × Represents schema page' (insert_slot row slots).1
  unfolding insert_row
  insert_row-Represents page slots rep = go (first_free 0 slots) refl
    where
      fill :
          (i : ℕ)
          → first_free 0 slots ≡ some i
          → Place schema page slots i none
          → (page' : Bytes) × (insert_row blank (create schema) row page ≡ ok (some i, page'))
            × (insert_bytes schema blank row (some i) page ≡ some page')
            × Represents schema page' (set slots i (some row))
      fill i found p = (
        p.front ++ ((1 ∷ image_row blank row) ++ p.back),
        rw (find_free_slot_lem schema wide page slots rep, found)
            (rw p.split (fill_at p.front p.bytes p.back i p.at p.slot)),
        rw (p.split, ← p.at)
            (write_at-append p.front p.bytes p.back (1 ∷ image_row blank row) (
              omega (
                arith,
                length-image_row blank schema row sized fits,
                length-Slot schema none p.bytes p.slot,
              ))),
        record {
          layout = p.replace (some row) (1 ∷ image_row blank row) new-Slot;
          full =
              same_length p.front p.bytes p.back (length-Slot schema none p.bytes p.slot)
              ∙ ap length (sym p.split)
              ∙ rep.full;
          count = length-set slots i (some row) ∙ rep.count;
        },
      )

      go :
          (o : Option ℕ)
          → first_free 0 slots ≡ o
          → (page' : Bytes) × (insert_row blank (create schema) row page
              ≡ ok ((insert_at o row slots).0, page'))
            × (insert_bytes schema blank row o page ≡ some page')
            × Represents schema page' (insert_at o row slots).1
      go none full = (page, insert_row_full blank schema row page slots wide rep full, refl, rep)
      go (some i) found =
          let at : i - 0 ≡ i = omega arith in
          fill i found (
            Layout-Place schema slots page i none rep.layout
              (rw at at (first_free-get slots 0 i found).1))

Layout-replicate :
    (schema : Schema) (n k : ℕ)
    → n * (1 + calculate_row_space schema) ≤ k
    → Layout schema (replicate n none) (zeros k)
Layout-replicate schema zero k h = tt
Layout-replicate schema (suc n) k h =
    go (k - (1 + space)) (grind arith) (grind arith) (Layout-replicate schema n)
  where
    space : ℕ
    space = calculate_row_space schema

    go :
        (rest : ℕ)
        → k ≡ suc space + rest
        → n * (1 + space) ≤ rest
        → ((j : ℕ) → n * (1 + space) ≤ j → Layout schema (replicate n none) (zeros j))
        → Layout schema (replicate (suc n) none) (zeros k)
    go rest whole enough others = (
      0 ∷ zeros space,
      zeros rest,
      ap zeros whole ∙ zeros-add (suc space) rest,
      (zeros space, refl, length-replicate space 0),
      others rest enough,
    )

-- A page of zeros, as a file allocates it, represents free slots.
pub Represents-zero :
    (schema : Schema) (n : ℕ)
    → n ≡ page_size
    → Represents schema (zeros n) (replicate (n / (1 + calculate_row_space schema)) none)
Represents-zero schema n e = record {
  layout = Layout-replicate schema (n / (1 + calculate_row_space schema)) n (grind arith);
  full = length-replicate n 0 ∙ e;
  count =
      length-replicate (n / (1 + calculate_row_space schema)) none
      ∙ ap (λ k. k / (1 + calculate_row_space schema)) e;
}

-- What an insert into slot `i` shows to the reads after it: the row in its slot, and every other
-- slot of the page as it was.
pub record Inserted (schema : Schema) (row : Row) (slots : List (Option Row)) (i : ℕ)
    (page' : Bytes) : Type 0 where
  pub reads : get_row (create schema) i page' ≡ ok row
  pub others :
      (j : ℕ) (s : Option Row)
      → i ≢ j
      → get_elem? slots j ≡ some s
      → get_row (create schema) j page' ≡ ok (row_of s)

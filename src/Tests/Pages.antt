-- ===== src/Tests/Pages.antt =====
-- Pages in a list, and runs of src/table/table.cpp on them.
use simple_db.Base.{
  ℕ, zero, suc, ◌+◌, ◌≤◌, ◌<◌, ◌≡◌, refl, List, [], ◌∷◌, ◌++◌, some, Result, ok, err, ◌>>=◌,
  or_fail, out_of_range, out_of_fuel, arith, length, length-append, length-set, get_elem?,
  get_elem?-lt, set, get_elem?-set_self, get_elem?-set_ne,
}
use simple_db.Table.Schema.{uint64, Schema}
use simple_db.Table.Row.{num, RowId}
use simple_db.Table.FixedTablePage.{page_size, zeros}
use simple_db.Table.Pages.{Pages, Meaning, Accessed, LawfulPages}
use simple_db.Table.Table.{Table, create, insert_row}
use simple_db.Table.Table.View.{View, IsTable}
use simple_db.Table.Table.Insert.{Inserts, insert_row-IsTable, Shown, get_row-insert_row_table}
use simple_db.Table.Table.Bounds.{IsInside, insert_row-IsInside}
use simple_db.Table.Table.TooWide.{insert_row_too_wide}
use simple_db.Transform.PageProvider.{make_fixed_page_provider}
use simple_db.Transform.Marshal.{Bytes, calculate_row_space}
use simple_db.Tests.Table.{columns, row, row-Fits, columns-IsSized, columns_wide}

abbrev access_page :
    {A : Type 0} → ℕ → (Bytes → Result (A × Bytes)) → List Bytes → Result (A × List Bytes)
access_page i f p = do
  page ← or_fail (get_elem? p i) out_of_range
  (a, page') ← f page
  ok (a, set p i page')

abbrev list_pages : Pages
list_pages = record {
  Pool = List Bytes;
  get_page_count = length;
  alloc_page = λ p. ok (length p, p ++ zeros page_size ∷ []);
  access = access_page;
}

abbrev list_meaning : Meaning list_pages
list_meaning = record { IsReady = λ p. Unit; content = λ i p. get_elem? p i }

get_elem?-front :
    (p : List Bytes) (q : Bytes) (j : ℕ) → j < length p → get_elem? (p ++ q ∷ []) j ≡ get_elem? p j
get_elem?-front [] q j h = absurd (omega arith)
get_elem?-front (x ∷ p) q zero h = refl
get_elem?-front (x ∷ p) q (suc j) h = get_elem?-front p q j (omega arith)

get_elem?-end : (p : List Bytes) (q : Bytes) → get_elem? (p ++ q ∷ []) (length p) ≡ some q
get_elem?-end [] q = refl
get_elem?-end (x ∷ p) q = get_elem?-end p q

list_pages-access :
    {A : Type 0} (i : ℕ) (f : Bytes → Result (A × Bytes)) (p : List Bytes) (bytes bytes' : Bytes)
    (a : A)
    → Unit {0}
    → get_elem? p i ≡ some bytes
    → f bytes ≡ ok (a, bytes')
    → length bytes' ≡ page_size
    → (p' : List Bytes) × (access_page i f p ≡ ok (a, p'))
      × Accessed list_pages list_meaning i bytes' p p'
list_pages-access i f p bytes bytes' a u at run full = (
  set p i bytes',
  rw (at, run),
  record {
    ready = tt;
    same_count = length-set p i bytes';
    here = get_elem?-set_self p i bytes' (get_elem?-lt p i bytes at);
    others = λ j ne. get_elem?-set_ne p i j bytes' ne;
  },
)

list_pages-Lawful : LawfulPages list_pages list_meaning
list_pages-Lawful = record {
  access_lem = list_pages-access;
  alloc_page_lem = λ p u. (
    p ++ zeros page_size ∷ [],
    refl,
    record {
      ready = tt;
      count = omega (arith, length-append p (zeros page_size ∷ []));
      fresh = get_elem?-end p (zeros page_size);
      others = λ j h. get_elem?-front p (zeros page_size) j h;
    },
  );
}

abbrev empty_view : View
empty_view j = []

abbrev empty_table : Schema → Table (List Bytes)
empty_table schema = create list_pages [] (make_fixed_page_provider schema)

empty-IsTable :
    (schema : Schema) → IsTable list_pages list_meaning schema (empty_table schema) empty_view
empty-IsTable schema = record {
  ready = tt;
  same_marshal = refl;
  current = omega arith;
  pages = λ i h. absurd (omega arith);
}

pub columns_fit : 1 + calculate_row_space columns ≤ page_size
unfolding calculate_row_space
columns_fit = omega arith

insert_row-IsTable_example :
    Inserts list_pages list_meaning columns list_pages-Lawful columns_wide 0 row columns-IsSized
      row-Fits columns_fit 1
      (empty_table columns)
      empty_view
insert_row-IsTable_example =
    insert_row-IsTable list_pages list_meaning columns list_pages-Lawful columns_wide 0 row
      columns-IsSized row-Fits columns_fit 1 (empty_table columns) empty_view
      (empty-IsTable columns) (omega arith)

get_row-insert_row_table_example :
    (id : RowId) × (t' : Table (List Bytes)) × (insert_row list_pages 1 0 row (empty_table columns)
      ≡ ok (id, t'))
    × Shown list_pages list_meaning columns list_pages-Lawful columns_wide 0 row columns-IsSized
        row-Fits columns_fit
        (empty_table columns)
        empty_view
        id
        t'
get_row-insert_row_table_example =
    get_row-insert_row_table list_pages list_meaning columns list_pages-Lawful columns_wide 0 row
      columns-IsSized row-Fits columns_fit 1 (empty_table columns) empty_view
      (empty-IsTable columns) (omega arith)

insert_row-IsInside_example :
    (id : RowId) × (t' : Table (List Bytes)) × (insert_row list_pages 1 0 row (empty_table columns)
      ≡ ok (id, t'))
    × IsInside list_pages list_meaning columns id t'
insert_row-IsInside_example =
    insert_row-IsInside list_pages list_meaning columns list_pages-Lawful columns_wide 0 row
      columns-IsSized row-Fits columns_fit 1 (empty_table columns) empty_view
      (empty-IsTable columns) (omega arith)

-- A column that is declared longer than a page.
abbrev blob : Schema
blob = record { name = "blob"; type = uint64; length = 5000 } ∷ []

blob_wide : page_size < 1 + calculate_row_space blob
unfolding calculate_row_space
blob_wide = omega arith

insert_row_too_wide_example :
    insert_row list_pages 7 0 (num 1 ∷ []) (empty_table blob) ≡ err out_of_fuel
insert_row_too_wide_example =
    insert_row_too_wide list_pages list_meaning blob list_pages-Lawful 0 (num 1 ∷ []) blob_wide 7
      (empty_table blob) empty_view (empty-IsTable blob)

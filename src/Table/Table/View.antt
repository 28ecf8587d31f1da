-- ===== src/Table/Table/View.antt =====
-- A table seen as a list of slots for each page, and Table::get_row.
use simple_db.Base.{
  ℕ, ◌≤◌, ◌<◌, ◌≡◌, ◌≢◌, inl, inr, ◌∙◌, List, Option, none, some, ok, arith, get_elem?, eqb,
  if◌then◌else◌, Bool-cases,
}
use simple_db.Table.Schema.{Schema}
use simple_db.Table.Row.{Row, RowId}
use simple_db.Table.FixedTablePage.{page_size, zeros}
use simple_db.Table.FixedTablePage
use simple_db.Table.FixedTablePage.Slots.{first_free, row_of, Represents, get_row_lem}
use simple_db.Table.FixedTablePage.Insert.{insert_slot, insert_row_full, insert_row-Represents}
use simple_db.Table.Pages.{Pages, Meaning, Accessed, LawfulPages}
use simple_db.Table.Table.{Table, read_row, get_row}
use simple_db.Transform.Marshal.{Bytes, create, calculate_row_space}
use simple_db.Transform.Marshal.RoundTrip.{Fits, IsSized}

-- The slots of each page.
abbrev pub View : Type 0
View = ℕ → List (Option Row)

abbrev pub set_page : ℕ → List (Option Row) → View → View
set_page i slots view j = if eqb i j then slots else view j

module _ (s : Pages) (m : Meaning s) (schema : Schema) where
  open s use {Pool, get_page_count, access}
  open m use {IsReady, content}

  -- Page `i` of the pool represents the slots.
  abbrev pub Shows : Pool → ℕ → List (Option Row) → Type 0
  Shows p i slots = (bytes : Bytes) × (content i p ≡ some bytes) × Represents schema bytes slots

  pub record IsTable (t : Table Pool) (view : View) : Type 0 where
    pub ready : IsReady t.pool
    pub same_marshal : t.marshal ≡ create schema
    pub current : t.current_page_index ≤ get_page_count t.pool
    pub pages : (i : ℕ) → i < get_page_count t.pool → Shows t.pool i (view i)

  module _ (lawful : LawfulPages s m) where
    Shows-Accessed :
        (i : ℕ) (bytes : Bytes) (slots : List (Option Row)) (p p' : Pool) (view : View)
        → ((j : ℕ) → j < get_page_count p → Shows p j (view j))
        → Accessed s m i bytes p p'
        → Represents schema bytes slots
        → (j : ℕ) → j < get_page_count p'
        → Shows p' j (set_page i slots view j)
    Shows-Accessed i bytes slots p p' view all a rep j h = elim (Bool-cases (eqb i j)) [
      | inl e ↦ let same : i ≡ j = ground arith in rw e (bytes, rw (← same) a.here, rep)
      | inr e ↦
          let (b, at, rep') = all j (rw (← a.same_count) h) in
          rw e (b, a.others j (λ same. ground arith) ∙ at, rep')
    ]

    pub set_page_same : (i : ℕ) (view : View) (j : ℕ) → set_page i (view i) view j ≡ view j
    set_page_same i view j = elim (Bool-cases (eqb i j)) [
      | inl e ↦ let same : i ≡ j = ground arith in rw (e, same)
      | inr e ↦ rw e
    ]

    -- The table after an access to one of its pages.
    Accessed-IsTable :
        (i : ℕ) (bytes : Bytes) (slots : List (Option Row)) (t : Table Pool) (p' : Pool)
        (view : View)
        → IsTable t view
        → Accessed s m i bytes t.pool p'
        → Represents schema bytes slots
        → IsTable (record t { pool = p' }) (set_page i slots view)
    Accessed-IsTable i bytes slots t p' view v a rep = record {
      ready = a.ready;
      same_marshal = v.same_marshal;
      current = rw a.same_count v.current;
      pages = Shows-Accessed i bytes slots t.pool p' view v.pages a rep;
    }

    pub IsTable-view :
        (t : Table Pool) (view view' : View)
        → ((j : ℕ) → view j ≡ view' j)
        → IsTable t view
        → IsTable t view'
    IsTable-view t view view' same v = record {
      ready = v.ready;
      same_marshal = v.same_marshal;
      current = v.current;
      pages = λ j h. rw (← same j) (v.pages j h);
    }

    module _ (wide : calculate_row_space schema ≢ 0) where
      -- A read of a slot never fails, gives its row, and leaves the table as it is.
      pub get_row-IsTable :
          (t : Table Pool) (view : View) (id : RowId) (slot : Option Row)
          → IsTable t view
          → id.page_index < get_page_count t.pool
          → get_elem? (view id.page_index) id.row_index ≡ some slot
          → (t' : Table Pool) × (get_row s id t ≡ ok (row_of slot, t')) × IsTable t' view
      unfolding get_row
      get_row-IsTable t view id slot v h g =
          let (bytes, at, rep) = v.pages id.page_index h in
          let read : read_row s t.marshal id.row_index bytes ≡ ok (row_of slot, bytes) =
            rw v.same_marshal
              (rw (get_row_lem schema wide bytes (view id.page_index) id.row_index slot rep g)) in
          let (p', done, a) =
            lawful.access_lem id.page_index (read_row s t.marshal id.row_index) t.pool bytes bytes
              (row_of slot) v.ready at read rep.full in
          (
            record t { pool = p' },
            rw done,
            IsTable-view (record t { pool = p' }) _ view (set_page_same id.page_index view)
                (Accessed-IsTable id.page_index bytes (view id.page_index) t p' view v a rep),
          )

      -- An insert of any row on the current page, if it is full.
      pub page_full :
          (blank : ℕ) (row : Row) (t : Table Pool) (view : View)
          → IsTable t view
          → t.current_page_index < get_page_count t.pool
          → first_free 0 (view t.current_page_index) ≡ none
          → (p' : Pool) × (access t.current_page_index
                (FixedTablePage.insert_row blank t.marshal row)
                t.pool
              ≡ ok (none, p'))
            × (get_page_count p' ≡ get_page_count t.pool)
            × IsTable (record t { pool = p' }) view
      page_full blank row t view v h full =
          let (bytes, at, rep) = v.pages t.current_page_index h in
          let ins : FixedTablePage.insert_row blank t.marshal row bytes ≡ ok (none, bytes) =
            rw v.same_marshal (insert_row_full blank schema row bytes _ wide rep full) in
          let (p', done, a) =
            lawful.access_lem t.current_page_index (FixedTablePage.insert_row blank t.marshal row)
              t.pool bytes bytes none v.ready at ins rep.full in
          (
            p',
            done,
            a.same_count,
            IsTable-view (record t { pool = p' }) _ view (set_page_same t.current_page_index view)
                (Accessed-IsTable t.current_page_index bytes (view t.current_page_index) t p' view v
                  a rep),
          )

      module _ (blank : ℕ) (row : Row) (sized : IsSized schema) (fits : Fits schema row) where
        -- The insert on the current page.
        pub page_insert :
            (t : Table Pool) (view : View)
            → IsTable t view
            → t.current_page_index < get_page_count t.pool
            → (p' : Pool) × (access t.current_page_index
                  (FixedTablePage.insert_row blank t.marshal row)
                  t.pool
                ≡ ok ((insert_slot row (view t.current_page_index)).0, p'))
              × (get_page_count p' ≡ get_page_count t.pool)
              × IsTable
                  (record t { pool = p' })
                  (set_page t.current_page_index
                    (insert_slot row (view t.current_page_index)).1
                    view)
        page_insert t view v h =
            let slots = view t.current_page_index in
            let (bytes, at, rep) = v.pages t.current_page_index h in
            let (bytes', ins, wrote, rep') =
              insert_row-Represents blank schema row wide sized fits bytes slots rep in
            let ins' : FixedTablePage.insert_row blank t.marshal row bytes
                ≡ ok ((insert_slot row slots).0, bytes') =
              rw v.same_marshal ins in
            let (p', done, a) =
              lawful.access_lem t.current_page_index (FixedTablePage.insert_row blank t.marshal row)
                t.pool bytes bytes' (insert_slot row slots).0 v.ready at ins' rep'.full in
            (
              p',
              done,
              a.same_count,
              Accessed-IsTable t.current_page_index bytes' (insert_slot row slots).1 t p' view v a
                  rep',
            )

-- ===== src/Table/Table/Insert.antt =====
-- Table::insert_row: the loop ends, and the row is where it says.
use simple_db.Base.{
  ℕ, zero, suc, ◌+◌, ◌-◌, ◌≤◌, ◌<◌, ◌≡◌, ◌≢◌, ◌⊎◌, inl, inr, refl, ap, ◌∙◌, Option, none, some, ok,
  arith, replicate, get_elem?, set, get_elem?-set_self, get_elem?-set_ne, get_elem?-lt, eqb, true,
  Bool-cases, Option-cases,
}
use simple_db.Table.Schema.{Schema}
use simple_db.Table.Row.{Row, RowId}
use simple_db.Table.FixedTablePage.{page_size}
use simple_db.Table.FixedTablePage.Slots.{first_free, row_of}
use simple_db.Table.FixedTablePage.Insert.{first_free-get}
use simple_db.Table.Pages.{Pages, Meaning, LawfulPages}
use simple_db.Table.Table.{Table, ensure_page, insert_row, get_row}
use simple_db.Transform.Marshal.{calculate_row_space}
use simple_db.Transform.Marshal.RoundTrip.{Fits, IsSized}
use simple_db.Table.Table.View.{View, set_page, IsTable, get_row-IsTable}
use simple_db.Table.Table.Round.{
  Ensured, fresh_slots, slot_count, ensure_old, ensure_new, round_found, round_full,
}

-- The row stands where the identifier says, in a slot that was free or on a page that is new.
-- Every other slot of the old pages is as it was.
pub record Stored (row : Row) (id : RowId) (count : ℕ) (view view' : View) : Type 0 where
  pub stored : get_elem? (view' id.page_index) id.row_index ≡ some (some row)
  pub was_free : id.page_index < count → get_elem? (view id.page_index) id.row_index ≡ some none
  pub others :
      (j i : ℕ)
      → j < count
      → (id.page_index ≢ j) ⊎ (id.row_index ≢ i)
      → get_elem? (view' j) i ≡ get_elem? (view j) i

module _ (s : Pages) (m : Meaning s) (schema : Schema) (lawful : LawfulPages s m)
    (wide : calculate_row_space schema ≢ 0) (blank : ℕ) (row : Row) (sized : IsSized schema)
    (fits : Fits schema row) (room : 1 + calculate_row_space schema ≤ page_size) where
  open s use {Pool, get_page_count, access}

  slot_count_pos : 0 < (slot_count schema)
  slot_count_pos = grind arith

  first_free-fresh : first_free 0 (fresh_slots schema) ≡ some 0
  first_free-fresh = go (slot_count schema) slot_count_pos
    where
      go : (n : ℕ) → 0 < n → first_free 0 (replicate n none) ≡ some 0
      go zero h = absurd (omega arith)
      go (suc n) h = refl

  Stored-set_page :
      (c i count : ℕ) (view view₁ : View)
      → first_free 0 (view₁ c) ≡ some i
      → ((j : ℕ) → j < count → view₁ j ≡ view j)
      → Stored row
          (record { page_index = c; row_index = i })
          count
          view
          (set_page c (set (view₁ c) i (some row)) view₁)
  Stored-set_page c i count view view₁ free kept =
      let at : i - 0 ≡ i = omega arith in
      let slot : get_elem? (view₁ c) i ≡ some none =
        rw at at (first_free-get (view₁ c) 0 i free).1 in
      let self : eqb c c ≡ true = ground arith in
      record {
        stored =
            rw self
              (get_elem?-set_self (view₁ c) i (some row) (get_elem?-lt (view₁ c) i none slot));
        was_free = λ h. rw (← kept c h) slot;
        others = λ j k h apart. elim (Bool-cases (eqb c j)) [
          | inr e ↦ rw (e, kept j h)
          | inl e ↦
              let same : c ≡ j = ground arith in
              let ne : i ≢ k = λ x. elim apart [ inl d ↦ d same | inr d ↦ d x ] in
              rw (e, ← kept j h, ← same) (get_elem?-set_ne (view₁ c) i k (some row) ne)
        ];
      }

  Stored-kept :
      (id : RowId) (count count₁ : ℕ) (view view₁ view' : View)
      → count ≤ count₁
      → ((j : ℕ) → j < count → view₁ j ≡ view j)
      → Stored row id count₁ view₁ view'
      → Stored row id count view view'
  Stored-kept id count count₁ view view₁ view' le kept d = record {
    stored = d.stored;
    was_free = λ h. rw (← kept id.page_index h) (d.was_free (omega arith));
    others = λ j i h apart. d.others j i (omega arith) apart ∙ ap (λ l. get_elem? l i) (kept j h);
  }

  -- What a run of the insert comes to.
  abbrev pub Inserts : ℕ → Table Pool → View → Type 0
  Inserts n t view =
      (id : RowId) × (t' : Table Pool) × (view' : View) × (insert_row s n blank row t ≡ ok (id, t'))
      × IsTable s m schema t' view'
      × (id.page_index < get_page_count t'.pool)
      × (get_page_count t.pool ≤ get_page_count t'.pool)
      × Stored row id (get_page_count t.pool) view view'

  insert_found :
      (n : ℕ) (t t₁ : Table Pool) (view view₁ : View) (i : ℕ)
      → ensure_page s t ≡ ok t₁
      → Ensured s m schema lawful wide t view t₁ view₁
      → first_free 0 (view₁ t₁.current_page_index) ≡ some i
      → Inserts (suc n) t view
  insert_found n t t₁ view view₁ i done d free =
      let (p', run, count, tab) =
        round_found s m schema lawful wide blank row sized fits n t t₁ view view₁ i done d free in
      (
        record { page_index = t₁.current_page_index; row_index = i },
        record t₁ { pool = p' },
        _,
        run,
        tab,
        rw count d.here,
        omega (arith, d.grown, count),
        Stored-set_page t₁.current_page_index i (get_page_count t.pool) view view₁ free d.kept,
      )

  -- A full page is an old one, since a new page has room.
  insert_full :
      (n : ℕ) (t t₁ : Table Pool) (view view₁ : View)
      → ensure_page s t ≡ ok t₁
      → Ensured s m schema lawful wide t view t₁ view₁
      → first_free 0 (view₁ t₁.current_page_index) ≡ none
      → ((t₂ : Table Pool)
          → IsTable s m schema t₂ view₁
          → get_page_count t₂.pool ≡ get_page_count t₁.pool
          → t₂.current_page_index ≡ t₁.current_page_index + 1
          → Inserts n t₂ view₁)
      → Inserts (suc n) t view
  insert_full n t t₁ view view₁ done d full rest =
      let (t₂, run, count, cur, tab) =
        round_full s m schema lawful wide blank row n t t₁ view view₁ done d full in
      let (id, t', view', run', v', inside, more, st) = rest t₂ tab count cur in
      (
        id,
        t',
        view',
        run ∙ run',
        v',
        inside,
        omega (arith, d.grown, count, more),
        Stored-kept id (get_page_count t.pool) (get_page_count t₂.pool) view view₁ view'
            (omega (arith, d.grown, count)) d.kept st,
      )

  attempt :
      (n : ℕ) (t t₁ : Table Pool) (view view₁ : View)
      → ensure_page s t ≡ ok t₁
      → Ensured s m schema lawful wide t view t₁ view₁
      → get_page_count t.pool - t.current_page_index < suc n
      → (first_free 0 (view₁ t.current_page_index) ≡ none
          → get_page_count t₁.pool ≡ get_page_count t.pool)
      → ((t₂ : Table Pool)
          → IsTable s m schema t₂ view₁
          → get_page_count t₂.pool - t₂.current_page_index < n
          → Inserts n t₂ view₁)
      → Inserts (suc n) t view
  attempt n t t₁ view view₁ done d bound old rest =
      elim (Option-cases (first_free 0 (view₁ t₁.current_page_index))) [
        | inr (i, free) ↦ insert_found n t t₁ view view₁ i done d free
        | inl full ↦
            let same_count : get_page_count t₁.pool ≡ get_page_count t.pool =
              old (rw (← d.same) full) in
            insert_full n t t₁ view view₁ done d full (λ t₂ v count cur.
              rest t₂ v (omega (arith, same_count, d.here, d.same, bound, count, cur)))
      ]

  -- In a table whose pages represent slots, with columns of their types' sizes and slots that fit on a
  -- page, a row that fits is always inserted, with fuel for the pages from the current one on and one
  -- more. The row stands where the answer says, in a slot that was free or on a new page, every other
  -- slot is as it was, and the pages represent slots again.
  pub insert_row-IsTable :
      (n : ℕ) (t : Table Pool) (view : View)
      → IsTable s m schema t view
      → get_page_count t.pool - t.current_page_index < n
      → Inserts n t view
  insert_row-IsTable zero t view v h = absurd (omega arith)
  insert_row-IsTable (suc n) t view v h =
      elim (Bool-cases (eqb t.current_page_index (get_page_count t.pool))) [
        | inl e ↦
            let (t₁, done, d) = ensure_new s m schema lawful wide t view v (ground arith) in
            attempt n t t₁ view _ done d h (λ none_free. ground (arith, first_free-fresh))
              (λ t₂ v' h'. insert_row-IsTable n t₂ _ v' h')
        | inr e ↦
            let (done, d) =
              ensure_old s m schema lawful wide t view v (ground (arith, v.current)) in
            attempt n t t view view done d h (λ e'. refl)
              (λ t₂ v' h'. insert_row-IsTable n t₂ view v' h')
      ]

  -- What reads show after an insert: the new row at its identifier, and every other old row.
  pub record Shown (t : Table Pool) (view : View) (id : RowId) (t' : Table Pool) : Type 0 where
    pub reads : (t'' : Table Pool) × (get_row s id t' ≡ ok (row, t''))
    pub others :
        (j : RowId) (slot : Option Row)
        → j.page_index < get_page_count t.pool
        → (id.page_index ≢ j.page_index) ⊎ (id.row_index ≢ j.row_index)
        → get_elem? (view j.page_index) j.row_index ≡ some slot
        → (t'' : Table Pool) × (get_row s j t' ≡ ok (row_of slot, t''))

  -- In a table whose pages represent slots, with columns of their types' sizes and slots that fit on a
  -- page, a row that fits is inserted, and `get_row` reads it back from the table. Every slot that the
  -- table had before, other than the new row's, reads as it did.
  pub get_row-insert_row_table :
      (n : ℕ) (t : Table Pool) (view : View)
      → IsTable s m schema t view
      → get_page_count t.pool - t.current_page_index < n
      → (id : RowId) × (t' : Table Pool) × (insert_row s n blank row t ≡ ok (id, t'))
        × Shown t view id t'
  get_row-insert_row_table n t view v h =
      let (id, t', view', run, v', inside, grown, st) = insert_row-IsTable n t view v h in
      let (t₁, read, _) =
        get_row-IsTable s m schema lawful wide t' view' id (some row) v' inside st.stored in
      (
        id,
        t',
        run,
        record {
          reads = (t₁, read);
          others = λ j slot old apart g.
              let (t₂, read₂, _) =
                get_row-IsTable s m schema lawful wide t' view' j slot v' (omega arith)
                  (st.others j.page_index j.row_index old apart ∙ g) in
              (t₂, read₂);
        },
      )

-- ===== src/Table/Table/Round.antt =====
-- One round of the loop of Table::insert_row.
use simple_db.Base.{
  ℕ, suc, ◌+◌, ◌/◌, ◌≤◌, ◌<◌, ◌≡◌, ◌≢◌, inl, inr, refl, sym, ap, ◌∙◌, List, Option, none, some, ok,
  arith, replicate, set, eqb, Bool-cases,
}
use mathlib.Core.Path.{subst}
use simple_db.Table.Schema.{Schema}
use simple_db.Table.Row.{Row}
use simple_db.Table.FixedTablePage.{page_size, zeros}
use simple_db.Table.FixedTablePage
use simple_db.Table.FixedTablePage.Slots.{first_free}
use simple_db.Table.FixedTablePage.Insert.{insert_at, insert_slot, Represents-zero}
use simple_db.Table.Pages.{Pages, Meaning, Allocated, LawfulPages}
use simple_db.Table.Table.{Table, ensure_page, insert_row}
use simple_db.Transform.Marshal.{calculate_row_space}
use simple_db.Transform.Marshal.RoundTrip.{Fits, IsSized}
use simple_db.Table.Table.View.{View, set_page, Shows, IsTable, page_full, page_insert}

abbrev pub slot_count : Schema → ℕ
slot_count schema = page_size / (1 + calculate_row_space schema)

-- The slots of a new page.
abbrev pub fresh_slots : Schema → List (Option Row)
fresh_slots schema = replicate (slot_count schema) none

module _ (s : Pages) (m : Meaning s) (schema : Schema) (lawful : LawfulPages s m)
    (wide : calculate_row_space schema ≢ 0) where
  open s use {Pool, get_page_count, access}

  -- The page that the row is tried on: the current one, or a new one behind the last.
  pub record Ensured (t : Table Pool) (view : View) (t' : Table Pool) (view' : View) : Type 0 where
    pub table : IsTable s m schema t' view'
    pub same : t'.current_page_index ≡ t.current_page_index
    pub here : t'.current_page_index < get_page_count t'.pool
    pub grown : get_page_count t.pool ≤ get_page_count t'.pool
    pub kept : (j : ℕ) → j < get_page_count t.pool → view' j ≡ view j

  Shows-Allocated :
      (p p' : Pool) (i : ℕ) (view : View)
      → i ≡ get_page_count p
      → ((j : ℕ) → j < get_page_count p → Shows s m schema p j (view j))
      → Allocated s m p p'
      → (j : ℕ) → j < get_page_count p'
      → Shows s m schema p' j (set_page i (fresh_slots schema) view j)
  Shows-Allocated p p' i view e all a j h = elim (Bool-cases (eqb i j)) [
    | inl at ↦
        let same : j ≡ get_page_count p = ground (arith, e) in
        rw at (zeros page_size, rw same a.fresh, Represents-zero schema page_size refl)
    | inr at ↦
        let old : j < get_page_count p = ground (arith, e, a.count) in
        let (b, c, rep) = all j old in rw at (b, a.others j old ∙ c, rep)
  ]

  pub ensure_old :
      (t : Table Pool) (view : View)
      → IsTable s m schema t view
      → t.current_page_index < get_page_count t.pool
      → (ensure_page s t ≡ ok t) × Ensured t view t view
  unfolding ensure_page
  ensure_old t view v h = (
    ground arith,
    record { table = v; same = refl; here = h; grown = omega arith; kept = λ j h'. refl },
  )

  pub ensure_new :
      (t : Table Pool) (view : View)
      → IsTable s m schema t view
      → t.current_page_index ≡ get_page_count t.pool
      → (t' : Table Pool) × (ensure_page s t ≡ ok t')
        × Ensured t view t' (set_page t.current_page_index (fresh_slots schema) view)
  unfolding ensure_page
  ensure_new t view v e =
      let (p', done, a) = lawful.alloc_page_lem t.pool v.ready in
      (
        record t { pool = p'; current_page_index = get_page_count t.pool },
        rw (e, done) (ground arith),
        record {
          table = record {
            ready = a.ready;
            same_marshal = v.same_marshal;
            current = omega (arith, a.count);
            pages = Shows-Allocated t.pool p' t.current_page_index view e v.pages a;
          };
          same = sym e;
          here = omega (arith, a.count);
          grown = omega (arith, a.count);
          kept = λ j h. ground arith;
        },
      )

  -- One round of the loop on a full page, with any row.
  pub round_full :
      (blank : ℕ) (row : Row) (n : ℕ) (t t₁ : Table Pool) (view view₁ : View)
      → ensure_page s t ≡ ok t₁
      → Ensured t view t₁ view₁
      → first_free 0 (view₁ t₁.current_page_index) ≡ none
      → (t₂ : Table Pool) × (insert_row s (suc n) blank row t ≡ insert_row s n blank row t₂)
        × (get_page_count t₂.pool ≡ get_page_count t₁.pool)
        × (t₂.current_page_index ≡ t₁.current_page_index + 1)
        × IsTable s m schema t₂ view₁
  unfolding insert_row
  round_full blank row n t t₁ view view₁ done d full =
      let (p', acc, count, tab) =
        page_full s m schema lawful wide blank row t₁ view₁ d.table d.here full in
      (
        record t₁ { pool = p'; current_page_index = t₁.current_page_index + 1 },
        rw (done, acc),
        count,
        refl,
        record {
          ready = tab.ready;
          same_marshal = tab.same_marshal;
          current = omega (arith, d.here, count);
          pages = tab.pages;
        },
      )

  module _ (blank : ℕ) (row : Row) (sized : IsSized schema) (fits : Fits schema row) where
    -- One round of the loop on a page where the row finds slot `i`.
    pub round_found :
        (n : ℕ) (t t₁ : Table Pool) (view view₁ : View) (i : ℕ)
        → ensure_page s t ≡ ok t₁
        → Ensured t view t₁ view₁
        → first_free 0 (view₁ t₁.current_page_index) ≡ some i
        → (p' : Pool) × (insert_row s (suc n) blank row t
            ≡ ok (
              record { page_index = t₁.current_page_index; row_index = i },
              record t₁ { pool = p' },
            ))
          × (get_page_count p' ≡ get_page_count t₁.pool)
          × IsTable s m schema
              (record t₁ { pool = p' })
              (set_page t₁.current_page_index
                (set (view₁ t₁.current_page_index) i (some row))
                view₁)
    unfolding insert_row
    round_found n t t₁ view view₁ i done d free =
        let c = t₁.current_page_index in
        let placed : insert_slot row (view₁ c) ≡ (some i, set (view₁ c) i (some row)) =
          ap (λ o. insert_at o row (view₁ c)) free in
        let (p', acc, count, tab) =
          page_insert s m schema lawful wide blank row sized fits t₁ view₁ d.table d.here in
        let acc' : access c (FixedTablePage.insert_row blank t₁.marshal row) t₁.pool
            ≡ ok (some i, p') =
          acc ∙ ap (λ (r : Option ℕ × List (Option Row)). ok (r.0, p')) placed in
        (
          p',
          rw (done, acc'),
          count,
          subst
              (λ (r : Option ℕ × List (Option Row)).
                IsTable s m schema (record t₁ { pool = p' }) (set_page c r.1 view₁))
              placed tab,
        )

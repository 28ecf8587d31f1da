-- ===== src/Table/Table/TooWide.antt =====
-- Table::insert_row with rows that are wider than a page.
use simple_db.Base.{
  ℕ, zero, suc, ◌+◌, ◌<◌, ◌≡◌, ◌≢◌, inl, inr, refl, ◌∙◌, List, [], ◌∷◌, Option, none, err,
  out_of_fuel, arith, length, eqb, Bool-cases,
}
use native.Mathlib.Nat.{div-eq_of_lt}
use simple_db.Table.Schema.{Schema}
use simple_db.Table.Row.{Row}
use simple_db.Table.FixedTablePage.{page_size}
use simple_db.Table.FixedTablePage.Slots.{first_free}
use simple_db.Table.Pages.{Pages, Meaning, LawfulPages}
use simple_db.Table.Table.{Table, insert_row}
use simple_db.Table.Table.View.{View, IsTable}
use simple_db.Table.Table.Round.{Ensured, slot_count, ensure_old, ensure_new, round_full}
use simple_db.Transform.Marshal.{calculate_row_space}

module _ (s : Pages) (m : Meaning s) (schema : Schema) (lawful : LawfulPages s m) (blank : ℕ)
    (row : Row) (too_wide : page_size < 1 + calculate_row_space schema) where
  open s use {Pool, get_page_count}

  wide : calculate_row_space schema ≢ 0
  wide e = omega arith

  no_slot :
      (slots : List (Option Row)) → length slots ≡ slot_count schema → first_free 0 slots ≡ none
  no_slot [] e = refl
  no_slot (x ∷ slots) e =
      let zero_slots : slot_count schema ≡ 0 = div-eq_of_lt too_wide in absurd (omega arith)

  full :
      (t t' : Table Pool) (view view' : View)
      → Ensured s m schema lawful wide t view t' view'
      → first_free 0 (view' t'.current_page_index) ≡ none
  full t t' view view' d =
      let (bytes, at, rep) = d.table.pages t'.current_page_index d.here in
      no_slot (view' t'.current_page_index) rep.count

  -- Where a slot is larger than a page, `insert_row` never ends, on a table whose pages represent slots:
  -- whatever the fuel and the row, it runs out.
  pub insert_row_too_wide :
      (n : ℕ) (t : Table Pool) (view : View)
      → IsTable s m schema t view
      → insert_row s n blank row t ≡ err out_of_fuel
  unfolding insert_row
  insert_row_too_wide zero t view v = refl
  insert_row_too_wide (suc n) t view v =
      elim (Bool-cases (eqb t.current_page_index (get_page_count t.pool))) [
        | inl e ↦
            let (t₁, done, d) = ensure_new s m schema lawful wide t view v (ground arith) in
            let (t₂, run, count, cur, v') =
              round_full s m schema lawful wide blank row n t t₁ view _ done d
                (full t t₁ view _ d) in
            run ∙ insert_row_too_wide n t₂ _ v'
        | inr e ↦
            let (done, d) =
              ensure_old s m schema lawful wide t view v (ground (arith, v.current)) in
            let (t₂, run, count, cur, v') =
              round_full s m schema lawful wide blank row n t t view _ done d (full t t view _ d) in
            run ∙ insert_row_too_wide n t₂ _ v'
      ]

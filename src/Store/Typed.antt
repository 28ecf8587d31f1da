-- ===== src/Store/Typed.antt =====
-- The types of the rows that go into the tables of a store and come out of them.
use mathlib.Core.Path.{subst}
use simple_db.Base.{
  ℕ, zero, suc, ◌+◌, ◌≡◌, sym, ap, ◌∙◌, arith, ◌⊎◌, inl, inr, Bool, true, false, [], ◌∷◌, Option,
  none, some, Result, ok, guard, or_fail, assert_failed, out_of_range, on_ok, guard-true, eqb,
  if◌then◌else◌, Bool-cases, Option-cases,
}
use simple_db.BufferPool.File.{Os, get_page_count}
use simple_db.BufferPool.FramePool.{get_page, get_data, set_data, drop_page}
use simple_db.Table.Row.{Row, RowId, eq_row, eq_row_sound}
use simple_db.Table.FixedTablePage.{fill_slot, find_free_slot, data_by_index, byte_at}
use simple_db.Table.FixedTablePage
use simple_db.Table.Table.{Table, ensure_page, read_row}
use simple_db.Table.Table
use simple_db.Table.Pooled.{Opened, pooled, access, alloc_page, sweep_rounds}
use simple_db.Transform.Marshal.{Bytes, Marshal, serialize_row, deserialize_row, write_at}
use simple_db.Transform.Marshal.Typed.{IsTyped, deserialize_row-IsTyped}
use simple_db.Store.{Store, lend, insert_row, get_row}

fill_slot-IsTyped :
    (blank : ℕ) (m : Marshal) (row : Row) (index : ℕ) (page : Bytes) (r : Option ℕ × Bytes)
    → fill_slot blank m row index page ≡ ok r
    → IsTyped m.schema row
unfolding fill_slot
fill_slot-IsTyped blank m row index page r h = on_ok (data_by_index m index) _ h λ offset e h₁.
    on_ok (or_fail (write_at offset (1 ∷ []) page) out_of_range) _ h₁ λ marked e₁ h₂.
      on_ok (serialize_row blank row (offset + 1) marked) _ h₂ λ page' e₂ h₃.
        on_ok (deserialize_row m.schema (offset + 1) page') _ h₃ λ actual read h₄.
          on_ok (guard (eq_row actual row) assert_failed) _ h₄ λ u checked h₅.
            subst (IsTyped m.schema)
              (eq_row_sound actual row (guard-true (eq_row actual row) _ checked))
              (deserialize_row-IsTyped m.schema (offset + 1) page' actual read)

-- A row that goes into a slot.
page-IsTyped :
    (blank : ℕ) (m : Marshal) (row : Row) (page page' : Bytes) (i : ℕ)
    → FixedTablePage.insert_row blank m row page ≡ ok (some i, page')
    → IsTyped m.schema row
unfolding FixedTablePage.insert_row
page-IsTyped blank m row page page' i h =
    on_ok (find_free_slot m page) _ h (found blank m row page page' i)
  where
    found :
        (blank : ℕ) (m : Marshal) (row : Row) (page page' : Bytes) (i : ℕ) (o : Option ℕ)
        → find_free_slot m page ≡ ok o
        → (elim o as (λ k. Result (Option ℕ × Bytes)) [
          | none ↦ ok (none, page)
          | some index ↦ fill_slot blank m row index page
        ])
          ≡ ok (some i, page')
        → IsTyped m.schema row
    found blank m row page page' i none e h = cc
    found blank m row page page' i (some index) e h = fill_slot-IsTyped blank m row index page _ h

slot-IsTyped :
    (m : Marshal) (index : ℕ) (page : Bytes) (row : Row)
    → FixedTablePage.get_row m index page ≡ ok row
    → (row ≡ []) ⊎ IsTyped m.schema row
unfolding FixedTablePage.get_row
slot-IsTyped m index page row h = on_ok (data_by_index m index) _ h λ offset e h₁.
    on_ok (byte_at offset page) _ h₁ λ header e₁ h₂. elim (Bool-cases (eqb header 0)) [
      | inl free ↦ inl (ground arith)
      | inr taken ↦ inr (deserialize_row-IsTyped m.schema (offset + 1) page row (ground arith))
    ]

full :
    {A B : Type 0} (o : Option A) (none_case : Result B) (some_case : A → Result B) {b : B}
    → o ≡ none
    → ◌≡◌ {A = Result B}
        (elim o as (λ k. Result B) [ none ↦ none_case | some a ↦ some_case a ])
        (ok b)
    → none_case ≡ ok b
full none x f e h = h
full (some a) x f e h = cc

then_of : {A : Type 0} (b : Bool) (x y : A) {r : A} → b ≡ true → (if b then x else y) ≡ r → x ≡ r
then_of true x y e h = h
then_of false x y e h = cc

module _ (os : Os) where
  open os use {Disk}

  -- What an access to a page answers is what the function on its bytes answers.
  access_inv :
      {A : Type 0} (i : ℕ) (f : Bytes → Result (A × Bytes)) (p p' : Opened Disk) (a : A)
      → access os i f p ≡ ok (a, p')
      → (bytes : Bytes) × (bytes' : Bytes) × (f bytes ≡ ok (a, bytes'))
  unfolding access
  access_inv {A} i f p p' a h =
      on_ok (get_page os (sweep_rounds p.frame_pool.cache) p.file.fd i p.frame_pool) _ h λ got e h₁.
        on_ok (get_data os got.0 got.1) _ h₁ λ bytes e₁ h₂. on_ok (f bytes) _ h₂ λ r e₂ h₃.
          on_ok (set_data os got.0 r.1 got.1) _ h₃ λ changed e₃ h₄.
            on_ok (drop_page os got.0 changed) _ h₄ λ dropped e₄ h₅.
              let same : r.0 ≡ a = cc in (bytes, r.1, e₂ ∙ ap (λ b. ok (b, r.1)) same)

  -- The marshal stays.
  ensure_page-marshal :
      (t u : Table (Opened Disk)) → ensure_page (pooled os) t ≡ ok u → t.marshal ≡ u.marshal
  unfolding ensure_page
  ensure_page-marshal t u h =
      elim (Bool-cases (eqb t.current_page_index (get_page_count t.pool.file))) [
        | inl e ↦
            on_ok (alloc_page os t.pool) _
              (then_of (eqb t.current_page_index (get_page_count t.pool.file)) _ _ e h)
              λ r e' h₁.
                let same : record t { pool = r.1; current_page_index = r.0 } ≡ u = cc in
                ap (λ t. t.marshal) same
        | inr e ↦ let same : t ≡ u = ground arith in ap (λ t. t.marshal) same
      ]

  insert_row-IsTyped_table :
      (n blank : ℕ) (row : Row) (t t' : Table (Opened Disk)) (id : RowId)
      → Table.insert_row (pooled os) n blank row t ≡ ok (id, t')
      → IsTyped t.marshal.schema row
  unfolding Table.insert_row
  insert_row-IsTyped_table zero blank row t t' id h = cc
  insert_row-IsTyped_table (suc n) blank row t t' id h =
      on_ok (ensure_page (pooled os) t) _ h λ u ensured h₁.
        on_ok
          (access os u.current_page_index (FixedTablePage.insert_row blank u.marshal row) u.pool) _
          h₁
          λ r done h₂.
            let same = ap (λ (m : Marshal). m.schema) (ensure_page-marshal t u ensured) in
            elim (Option-cases r.0) [
              | inl e ↦
                  let h₃ = full r.0 _ _ e h₂ in
                  subst (λ sc. IsTyped sc row) (sym same)
                    (insert_row-IsTyped_table n blank row _ t' id h₃)
              | inr (i, e) ↦
                  let (bytes, bytes', kept) =
                    access_inv u.current_page_index (FixedTablePage.insert_row blank u.marshal row)
                      u.pool r.1 r.0 done in
                  subst (λ sc. IsTyped sc row) (sym same)
                    (page-IsTyped blank u.marshal row bytes bytes' i
                      (kept ∙ ap (λ o. ok (o, bytes')) e))
            ]

  -- Whatever the system calls and the fuel, a row that a table takes has as many values as the table's
  -- schema has columns, each of its column's type. A null is of no column's type.
  pub insert_row-IsTyped :
      (n blank : ℕ) (row : Row) (t t' : Table (Opened Disk)) (s s' : Store Disk) (id : RowId)
      → insert_row os n blank row t s ≡ ok (id, t', s')
      → IsTyped t.marshal.schema row
  unfolding insert_row
  insert_row-IsTyped n blank row t t' s s' id h =
      on_ok (Table.insert_row (pooled os) n blank row (lend s t)) _ h
        λ r done h₁. insert_row-IsTyped_table n blank row (lend s t) r.1 r.0 done

  -- Whatever the system calls and the bytes of the file, a row that a table gives back is empty or has
  -- as many values as the table's schema has columns, each of its column's type.
  pub get_row-IsTyped :
      (id : RowId) (row : Row) (t t' : Table (Opened Disk)) (s s' : Store Disk)
      → get_row os id t s ≡ ok (row, t', s')
      → (row ≡ []) ⊎ IsTyped t.marshal.schema row
  unfolding get_row Table.get_row
  get_row-IsTyped id row t t' s s' h =
      on_ok (Table.get_row (pooled os) id (lend s t)) _ h λ r done h₁.
        on_ok
          (access os id.page_index (read_row (pooled os) t.marshal id.row_index) (lend s t).pool) _
          done
          λ q read h₂.
            let (bytes, bytes', f_read) =
              access_inv id.page_index (read_row (pooled os) t.marshal id.row_index) (lend s t).pool
                q.1 q.0 read in
            on_ok (FixedTablePage.get_row t.marshal id.row_index bytes) _ f_read λ row' slot h₃.
              let same : row' ≡ row = cc in
              subst (λ x. (x ≡ []) ⊎ IsTyped t.marshal.schema x) same
                (slot-IsTyped t.marshal id.row_index bytes row' slot)

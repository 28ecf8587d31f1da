-- ===== src/Store/Rows.antt =====
-- Rows in the tables of a store.
use simple_db.Base.{ℕ, ◌+◌, ◌-◌, ◌≤◌, ◌<◌, ◌≡◌, ◌≢◌, sym, ◌∙◌, Option, some, ok, get_elem?}
use simple_db.BufferPool.File.{Os, get_page_count}
use simple_db.BufferPool.File.Stored.{LawfulOs}
use simple_db.Table.Schema.{Schema}
use simple_db.Table.Row.{Row, RowId}
use simple_db.Table.FixedTablePage.{page_size}
use simple_db.Table.FixedTablePage.Slots.{row_of}
use simple_db.Table.Table.{Table}
use simple_db.Table.Table.View.{View, get_row-IsTable}
use simple_db.Table.Table.Insert.{Stored, insert_row-IsTable}
use simple_db.Table.Pooled.{Opened, pooled}
use simple_db.Table.Pooled.Ready.{meaning}
use simple_db.Table.Pooled.Alloc.{pooled-LawfulPages}
use simple_db.Transform.Marshal.{calculate_row_space}
use simple_db.Transform.Marshal.RoundTrip.{Fits, IsSized}
use simple_db.Store.{Store, lend, take_back, insert_row, get_row}
use simple_db.Store.Served.{contents, fd_of, IsServed, Changed, IsServed-kept, IsTable-IsServed}

-- A row that a table with the schema can take: the columns have the sizes of their types, and a slot
-- fits on a page.
pub record Insertable (schema : Schema) (row : Row) : Type 0 where
  pub wide : calculate_row_space schema ≢ 0
  pub sized : IsSized schema
  pub fits : Fits schema row
  pub room : 1 + calculate_row_space schema ≤ page_size

module _ {Disk : Type 0} where
  abbrev pub page_count : Table (Opened Disk) → ℕ
  page_count t = get_page_count t.pool.file

  -- The pages that an insert may try.
  abbrev pub rounds : Table (Opened Disk) → ℕ
  rounds t = page_count t - t.current_page_index

module _ (os : Os) (lawful : LawfulOs os) where
  open os use {Disk}

  -- What an insert into a served table comes to.
  pub record Inserted (schema : Schema) (row : Row) (s : Store Disk) (t : Table (Opened Disk))
      (view : View) (id : RowId) (t' : Table (Opened Disk)) (s' : Store Disk) : Type 0 where
    pub view' : View
    pub served : IsServed os schema s' t' view'
    pub changed : Changed os (fd_of t) s.buffer_pool s'.buffer_pool
    pub same_fd : fd_of t' ≡ fd_of t
    pub inside : id.page_index < page_count t'
    pub stored : Stored row id (page_count t) view view'

  pub insert_row-Inserted :
      (schema : Schema) (blank : ℕ) (row : Row) (n : ℕ) (s : Store Disk) (t : Table (Opened Disk))
      (view : View)
      → Insertable schema row
      → IsServed os schema s t view
      → rounds t < n
      → (id : RowId) × (t' : Table (Opened Disk)) × (s' : Store Disk) × (insert_row os n blank row t
            s
          ≡ ok (id, t', s'))
        × Inserted schema row s t view id t' s'
  unfolding insert_row
  insert_row-Inserted schema blank row n s t view h v bound =
      let (id, t', view', run, v', inside, grown, st) =
        insert_row-IsTable (pooled os) (meaning os (fd_of t) (contents os s.buffer_pool)) schema
          (pooled-LawfulPages os (fd_of t) (contents os s.buffer_pool) lawful) h.wide blank row
          h.sized h.fits h.room n (lend s t) view v bound in
      let (served, changed, same_fd) = IsTable-IsServed os schema s t t' view' v' in
      (
        id,
        t',
        take_back s t',
        rw run,
        record {
          view' = view';
          served = served;
          changed = changed;
          same_fd = same_fd;
          inside = inside;
          stored = st;
        },
      )

  -- A read of a slot of a served table never fails, gives its row, and the table is served as before.
  pub get_row-IsServed :
      (schema : Schema) (s : Store Disk) (t : Table (Opened Disk)) (view : View) (id : RowId)
      (slot : Option Row)
      → calculate_row_space schema ≢ 0
      → IsServed os schema s t view
      → id.page_index < page_count t
      → get_elem? (view id.page_index) id.row_index ≡ some slot
      → (t' : Table (Opened Disk)) × (s' : Store Disk) × (get_row os id t s
          ≡ ok (row_of slot, t', s'))
        × IsServed os schema s' t' view
        × Changed os (fd_of t) s.buffer_pool s'.buffer_pool
  unfolding get_row
  get_row-IsServed schema s t view id slot wide v h g =
      let (t', run, v') =
        get_row-IsTable (pooled os) (meaning os (fd_of t) (contents os s.buffer_pool)) schema
          (pooled-LawfulPages os (fd_of t) (contents os s.buffer_pool) lawful) wide (lend s t) view
          id slot v h g in
      let (served, changed, same_fd) = IsTable-IsServed os schema s t t' view v' in
      (t', take_back s t', rw run, served, changed)

  -- Two tables of a store have different files and one pool. A row that fits goes into the first
  -- one, a row that fits then goes into the second one, and the first row is then read back from the
  -- first table. No call fails.
  pub get_row-insert_row_shared :
      (schema schema₂ : Schema) (blank : ℕ) (row row₂ : Row) (n n₂ : ℕ) (s : Store Disk)
      (t t₂ : Table (Opened Disk)) (view view₂ : View)
      → Insertable schema row
      → Insertable schema₂ row₂
      → IsServed os schema s t view
      → IsServed os schema₂ s t₂ view₂
      → fd_of t ≢ fd_of t₂
      → rounds t < n
      → rounds t₂ < n₂
      → (id : RowId) × (t' : Table (Opened Disk)) × (s' : Store Disk) × (insert_row os n blank row t
            s
          ≡ ok (id, t', s'))
        × (id₂ : RowId) × (t₂' : Table (Opened Disk)) × (s'' : Store Disk) × (insert_row os n₂ blank
              row₂ t₂ s'
            ≡ ok (id₂, t₂', s''))
        × (t'' : Table (Opened Disk)) × (s''' : Store Disk) × (get_row os id t' s''
            ≡ ok (row, t'', s'''))
  get_row-insert_row_shared schema schema₂ blank row row₂ n n₂ s t t₂ view view₂ h h₂ v v₂ ne b b₂ =
      let (id, t', s', run, i) = insert_row-Inserted schema blank row n s t view h v b in
      let served₂ = IsServed-kept os schema₂ s s' (fd_of t) t₂ view₂ i.changed ne v₂ in
      let (id₂, t₂', s'', run₂, i₂) =
        insert_row-Inserted schema₂ blank row₂ n₂ s' t₂ view₂ h₂ served₂ b₂ in
      let served =
        IsServed-kept os schema s' s'' (fd_of t₂) t' i.view' i₂.changed
          (λ e. ne (sym i.same_fd ∙ sym e)) i.served in
      let (t'', s''', read, _, _) =
        get_row-IsServed schema s'' t' i.view' id (some row) h.wide served i.inside
          i.stored.stored in
      (id, t', s', run, id₂, t₂', s'', run₂, t'', s''', read)

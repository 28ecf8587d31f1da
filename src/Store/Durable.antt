-- ===== src/Store/Durable.antt =====
-- Rows that outlive the store: an insert, the destructor of the pool, and a new store.
use simple_db.Base.{ℕ, ◌<◌, ◌≡◌, some, ok, arith, length}
use mathlib.Core.Path.{subst}
use Prim.Native.String.{String}
use simple_db.BufferPool.Page.{page_size}
use simple_db.BufferPool.File.{Os}
use simple_db.BufferPool.File.Stored.{LawfulOs}
use simple_db.BufferPool.FramePool.{FramePool, destroy}
use simple_db.Table.Schema.{Schema}
use simple_db.Table.Row.{Row, RowId}
use simple_db.Table.Table.{Table}
use simple_db.Table.Table.View.{View}
use simple_db.Table.Pooled.{Opened}
use simple_db.Transform.Marshal.{Bytes}
use simple_db.Store.{FileSystem, Store, make_store, connect_table, insert_row, get_row}
use simple_db.Store.Served.{fd_of, IsServed}
use simple_db.Store.Rows.{Insertable, rounds, Inserted, insert_row-Inserted, get_row-IsServed}
use simple_db.Store.Reopen.{IsNamed, connect_table-destroy}

module _ (os : Os) (fs : FileSystem os.Disk) (lawful : LawfulOs os) where
  open os use {Disk}

  -- What the answer of an insert comes to.
  Inserted-ok :
      (schema : Schema) (blank : ℕ) (row : Row) (n : ℕ) (s s' : Store Disk)
      (t t' : Table (Opened Disk)) (view : View) (id : RowId)
      → Insertable schema row
      → IsServed os schema s t view
      → rounds t < n
      → insert_row os n blank row t s ≡ ok (id, t', s')
      → Inserted os lawful schema row s t view id t' s'
  Inserted-ok schema blank row n s s' t t' view id h v bound run =
      let (id₁, t₁, s₁, run₁, i) =
        insert_row-Inserted os lawful schema blank row n s t view h v bound in
      let same : (id₁, t₁, s₁) ≡ (id, t', s') = cc in
      subst
        (λ (r : RowId × Table (Opened Disk) × Store Disk).
          Inserted os lawful schema row s t view r.0 r.1 r.2)
        same i

  -- A row that fits has gone into a table of a store, and the destructor of the pool has run. A new
  -- store on the files that are left connects to the table's name, and reads the row back there. No
  -- call of the new store fails.
  pub get_row-reopened :
      (frames : ℕ) (bytes : ℕ → Bytes) (dir name : String) (schema : Schema) (blank : ℕ) (row : Row)
      (n : ℕ) (s s' : Store Disk) (t t' : Table (Opened Disk)) (view : View) (id : RowId)
      (left : FramePool Disk)
      → 0 < frames
      → ((i : ℕ) → length (bytes i) ≡ page_size)
      → Insertable schema row
      → IsServed os schema s t view
      → rounds t < n
      → insert_row os n blank row t s ≡ ok (id, t', s')
      → destroy os s'.buffer_pool ≡ ok left
      → IsNamed os fs (fs.join dir name) (fd_of t') left.disk
      → (t₂ : Table (Opened Disk)) × (s₂ : Store Disk) × (connect_table os fs name schema
            (make_store os fs frames bytes dir left.disk)
          ≡ ok (t₂, s₂))
        × (t₃ : Table (Opened Disk)) × (s₃ : Store Disk) × (get_row os id t₂ s₂ ≡ ok (row, t₃, s₃))
  get_row-reopened frames bytes dir name schema blank row n s s' t t' view id left some_frames full
        h v bound run end named =
      let i = Inserted-ok schema blank row n s s' t t' view id h v bound run in
      let (t₂, s₂, again, served, count) =
        connect_table-destroy os fs lawful frames bytes dir name schema s' t' i.view' left
          some_frames full i.served end named in
      let (t₃, s₃, read, _, _) =
        get_row-IsServed os lawful schema s₂ t₂ i.view' id (some row) h.wide served
          (omega (arith, i.inside, count)) i.stored.stored in
      (t₂, s₂, again, t₃, s₃, read)

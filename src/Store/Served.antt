-- ===== src/Store/Served.antt =====
-- A table of a store, whatever other tables the store has.
use simple_db.Base.{Option, ◌≡◌, ◌≢◌, refl, ◌∙◌, sym}
use simple_db.BufferPool.Page.{PageId, FileFd}
use simple_db.BufferPool.File.{Os}
use simple_db.BufferPool.FramePool.{FramePool}
use simple_db.BufferPool.FramePool.Coherent.{IsPool}
use simple_db.BufferPool.FramePool.Coherent
use simple_db.Table.Schema.{Schema}
use simple_db.Table.Table.{Table}
use simple_db.Table.Table.View.{View, IsTable}
use simple_db.Table.Pooled.{Opened, pooled}
use simple_db.Table.Pooled.Ready.{page_at, content-inside, IsIdle, meaning}
use simple_db.Transform.Marshal.{Bytes}
use simple_db.Store.{Store, lend, take_back}

abbrev pub fd_of : {Disk : Type 0} → Table (Opened Disk) → FileFd
fd_of t = t.pool.file.fd

module _ (os : Os) where
  open os use {Disk}

  abbrev pub contents : FramePool Disk → PageId → Option Bytes
  contents pool k = Coherent.content os k pool

  -- The pages of the table's file, in the pool of the store or on the disk, represent the view.
  abbrev pub IsServed : Schema → Store Disk → Table (Opened Disk) → View → Type 0
  IsServed schema s t view =
      IsTable (pooled os) (meaning os (fd_of t) (contents s.buffer_pool)) schema (lend s t) view

  -- A store whose pool has changed in the pages of file `fd` alone.
  pub record Changed (fd : FileFd) (pool pool' : FramePool Disk) : Type 0 where
    pub coherent : IsPool os pool'
    pub idle : IsIdle os pool'
    pub others : (k : PageId) → fd ≢ k.fd → contents pool' k ≡ contents pool k

  -- A table of another file is served as before.
  pub IsServed-kept :
      (schema : Schema) (s s' : Store Disk) (fd : FileFd) (t : Table (Opened Disk)) (view : View)
      → Changed fd s.buffer_pool s'.buffer_pool
      → fd ≢ fd_of t
      → IsServed schema s t view
      → IsServed schema s' t view
  IsServed-kept schema s s' fd t view c ne v = record {
    ready = record {
      coherent = c.coherent;
      idle = c.idle;
      same_fd = v.ready.same_fd;
      nonzero = v.ready.nonzero;
      whole = v.ready.whole;
      pages =
          λ i h. let (b, e, l) = v.ready.pages i h in (b, c.others (page_at os t.pool i) ne ∙ e, l);
      behind = λ i h. c.others (page_at os t.pool i) ne ∙ v.ready.behind i h;
      rest = λ k ne'. refl;
    };
    same_marshal = v.same_marshal;
    current = v.current;
    pages = λ i h.
        let (b, e, rep) = v.pages i h in
        (
          b,
          content-inside os i (lend s' t).pool h
              ∙ c.others (page_at os t.pool i) ne
              ∙ sym (content-inside os i (lend s t).pool h)
              ∙ e,
          rep,
        );
  }

  -- A table that has used the pool is served by the store with that pool.
  pub IsTable-IsServed :
      (schema : Schema) (s : Store Disk) (t t' : Table (Opened Disk)) (view : View)
      → IsTable (pooled os) (meaning os (fd_of t) (contents s.buffer_pool)) schema t' view
      → IsServed schema (take_back s t') t' view
        × Changed (fd_of t) s.buffer_pool t'.pool.frame_pool
        × (fd_of t' ≡ fd_of t)
  IsTable-IsServed schema s t t' view v = (
    record {
      ready = record {
        coherent = v.ready.coherent;
        idle = v.ready.idle;
        same_fd = refl;
        nonzero = v.ready.nonzero;
        whole = v.ready.whole;
        pages = v.ready.pages;
        behind = v.ready.behind;
        rest = λ k ne. refl;
      };
      same_marshal = v.same_marshal;
      current = v.current;
      pages = v.pages;
    },
    record { coherent = v.ready.coherent; idle = v.ready.idle; others = v.ready.rest },
    v.ready.same_fd,
  )

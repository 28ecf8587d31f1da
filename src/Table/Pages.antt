-- ===== src/Table/Pages.antt =====
-- What src/table uses of a file and the buffer pool: src/buffer_pool's File and IBufferPool.
use simple_db.Base.{ℕ, suc, ◌<◌, ◌≡◌, ◌≢◌, Option, some, Result, ok, length}
use simple_db.Transform.Marshal.{Bytes}
use simple_db.Table.FixedTablePage.{page_size, zeros}

-- `access i f` gets page `i`, lets `f` read and write its bytes, and gives the page back, as the
-- destructor of a PoolPage does.
pub record Pages : Type 1 where
  pub Pool : Type 0
  pub get_page_count : Pool → ℕ
  pub alloc_page : Pool → Result (ℕ × Pool)
  pub access : {A : Type 0} → ℕ → (Bytes → Result (A × Bytes)) → Pool → Result (A × Pool)

-- What a client may rely on: when the pages are ready for use, and what a page holds.
pub record Meaning (s : Pages) : Type 1 where
  pub IsReady : s.Pool → Type 0
  pub content : ℕ → s.Pool → Option Bytes

module _ (s : Pages) (m : Meaning s) where
  open s use {Pool, get_page_count, alloc_page, access}
  open m use {IsReady, content}

  -- Page `i` has new bytes, and no other page has.
  pub record Accessed (i : ℕ) (bytes : Bytes) (p p' : Pool) : Type 0 where
    pub ready : IsReady p'
    pub same_count : get_page_count p' ≡ get_page_count p
    pub here : content i p' ≡ some bytes
    pub others : (j : ℕ) → i ≢ j → content j p' ≡ content j p

  -- There is one page of zeros more.
  pub record Allocated (p p' : Pool) : Type 0 where
    pub ready : IsReady p'
    pub count : get_page_count p' ≡ suc (get_page_count p)
    pub fresh : content (get_page_count p) p' ≡ some (zeros page_size)
    pub others : (j : ℕ) → j < get_page_count p → content j p' ≡ content j p

  pub record LawfulPages : Type 1 where
    pub access_lem :
        {A : Type 0} (i : ℕ) (f : Bytes → Result (A × Bytes)) (p : Pool) (bytes bytes' : Bytes)
        (a : A)
        → IsReady p
        → content i p ≡ some bytes
        → f bytes ≡ ok (a, bytes')
        → length bytes' ≡ page_size
        → (p' : Pool) × (access i f p ≡ ok (a, p')) × Accessed i bytes' p p'
    pub alloc_page_lem :
        (p : Pool)
        → IsReady p
        → (p' : Pool) × (alloc_page p ≡ ok (get_page_count p, p')) × Allocated p p'

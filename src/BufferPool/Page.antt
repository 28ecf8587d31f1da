-- ===== src/BufferPool/Page.antt =====
-- src/buffer_pool/fwd.h: pages and their names.
use simple_db.Base.{ℕ, ◌≡◌, ◌↔◌, Bool, true, ◌&&◌, arith, eqb, eqb_iff, Eq, ℤ, eqb_ℤ, eqb_ℤ_iff}

abbrev pub page_size : ℕ
page_size = 4096

abbrev pub FileFd : Type 0
FileFd = ℤ

pub record PageId : Type 0 where
  pub fd : FileFd
  pub page_index : ℕ

abbrev pub same_page : PageId → PageId → Bool
same_page a b = eqb_ℤ a.fd b.fd && eqb a.page_index b.page_index

pub page_of_parts : (a b : PageId) → a.fd ≡ b.fd → a.page_index ≡ b.page_index → a ≡ b
page_of_parts a b e f = cc

pub same_page_iff : (a b : PageId) → (same_page a b ≡ true) ↔ (a ≡ b)
same_page_iff a b =
    ground (arith, eqb_ℤ_iff a.fd b.fd, eqb_iff a.page_index b.page_index, page_of_parts a b)

instance abbrev pub page_eq : Eq PageId
page_eq = record { same = same_page; same_iff = same_page_iff }

-- ===== src/Tests/Memory.antt =====
-- Files in memory: system calls as src/buffer_pool/file.cpp relies on them.
use simple_db.Base.{
  ℕ, zero, suc, ◌+◌, ◌-◌, ◌≤◌, ◌<◌, ◌≡◌, ◌≢◌, ◌⊎◌, inl, inr, refl, sym, ap, ◌∙◌, pos, true, [], ◌∷◌,
  some, arith, eqb, eqb_ℤ, eqb_ℤ_iff, length, if◌then◌else◌, Bool-cases, leb, ltb, length-replicate,
}
use mathlib.Core.Path.{subst}
use text.Mathlib.Text.{◌==◌}
use Prim.Native.String.{String}
use simple_db.BufferPool.Page.{FileFd, page_eq}
use simple_db.BufferPool.File.{OpenMode, create_new, existing, Os}
use simple_db.BufferPool.File.Stored.{Pwritten, Fallocated, LawfulOs}
use simple_db.Table.FixedTablePage.{zeros}
use simple_db.Transform.Marshal.{Bytes}

-- The length of each file, and the byte at each place of it.
abbrev pub Files : Type 0
Files = FileFd → ℕ × (ℕ → ℕ)

unfoldable pub cells : ℕ → ℕ → (ℕ → ℕ) → Bytes
cells zero offset g = []
cells (suc n) offset g = g offset ∷ cells n (offset + 1) g

unfoldable pub over : ℕ → Bytes → (ℕ → ℕ) → ℕ → ℕ
over offset [] g x = g x
over offset (b ∷ bytes) g x = if eqb x offset then b else over (offset + 1) bytes g x

-- As many of the bytes as the file has.
abbrev pub part : ℕ → ℕ → ℕ → ℕ
part n offset size = if leb (offset + n) size then n else size - offset

abbrev pub read_file : ℕ → ℕ → ℕ × (ℕ → ℕ) → Bytes
read_file n offset f = cells (part n offset f.0) offset f.1

-- A hole that a write leaves behind the end reads as zeros.
abbrev write_file : Bytes → ℕ → ℕ × (ℕ → ℕ) → ℕ × (ℕ → ℕ)
write_file [] offset f = f
write_file (b ∷ bytes) offset f = (
  if leb (offset + length (b ∷ bytes)) f.0 then f.0 else offset + length (b ∷ bytes),
  over offset (b ∷ bytes) (λ x. if ltb x f.0 then f.1 x else 0),
)

abbrev written : FileFd → Bytes → ℕ → Files → Files
written fd bytes offset d fd' = if eqb_ℤ fd' fd then write_file bytes offset (d fd) else d fd'

-- There are two files. A file is empty when it is created.
abbrev pub fd_of_path : String → FileFd
fd_of_path path = if path == "status" then pos 4 else pos 3

abbrev pub open_memory : FileFd → OpenMode → Files → Files
open_memory fd create_new d fd' = if eqb_ℤ fd' fd then (0, λ x. 0) else d fd'
open_memory fd existing d fd' = d fd'

abbrev pub memory : Os
memory = record {
  Disk = Files;
  open_path = λ path mode d. some (fd_of_path path, open_memory (fd_of_path path) mode d);
  fstat = λ fd d. some (d fd).0;
  fallocate = λ fd offset n d. (pos 0, written fd (zeros n) offset d);
  pread = λ fd n offset d. some (read_file n offset (d fd));
  pwrite = λ fd bytes offset d. some (length bytes, written fd bytes offset d);
}

cells-same :
    (n offset : ℕ) (g h : ℕ → ℕ)
    → ((x : ℕ) → offset ≤ x → x < offset + n → g x ≡ h x)
    → cells n offset g ≡ cells n offset h
unfolding cells
cells-same zero offset g h e = refl
cells-same (suc n) offset g h e =
    let first : g offset ≡ h offset = e offset (omega arith) (omega arith) in
    let rest = cells-same n (offset + 1) g h (λ x a b. e x (omega arith) (omega arith)) in cc

pub length-cells : (n offset : ℕ) (g : ℕ → ℕ) → length (cells n offset g) ≡ n
unfolding cells
length-cells zero offset g = refl
length-cells (suc n) offset g = ap suc (length-cells n (offset + 1) g)

over_outside :
    (offset : ℕ) (bytes : Bytes) (g : ℕ → ℕ) (x : ℕ)
    → (x < offset) ⊎ (offset + length bytes ≤ x)
    → over offset bytes g x ≡ g x
unfolding over
over_outside offset [] g x h = refl
over_outside offset (b ∷ bytes) g x (inl h) =
    ground (arith, over_outside (offset + 1) bytes g x (inl (omega arith)))
over_outside offset (b ∷ bytes) g x (inr h) =
    ground (arith, over_outside (offset + 1) bytes g x (inr (omega arith)))

cells-over :
    (offset : ℕ) (bytes : Bytes) (g : ℕ → ℕ)
    → cells (length bytes) offset (over offset bytes g) ≡ bytes
unfolding cells over
cells-over offset [] g = refl
cells-over offset (b ∷ bytes) g =
    let first : (if eqb offset offset then b else over (offset + 1) bytes g offset) ≡ b =
      ground arith in
    let rest =
      cells-same (length bytes) (offset + 1) (over offset (b ∷ bytes) g) (over (offset + 1) bytes g)
        (λ x a h. ground arith)
      ∙ cells-over (offset + 1) bytes g in
    cc

read-write :
    (bytes : Bytes) (offset : ℕ) (f : ℕ × (ℕ → ℕ))
    → read_file (length bytes) offset (write_file bytes offset f) ≡ bytes
unfolding cells
read-write [] offset f =
    let none_left : part 0 offset f.0 ≡ 0 = ground arith in ap (λ m. cells m offset f.1) none_left
read-write (b ∷ bytes) offset f =
    let n = length (b ∷ bytes) in
    let all : part n offset (if leb (offset + n) f.0 then f.0 else offset + n) ≡ n = ground arith in
    ap (λ m. cells m offset (over offset (b ∷ bytes) (λ x. if ltb x f.0 then f.1 x else 0))) all
    ∙ cells-over offset (b ∷ bytes) (λ x. if ltb x f.0 then f.1 x else 0)

-- A read beside what was written, of a part that the file has.
read-write_beside :
    (bytes : Bytes) (offset : ℕ) (f : ℕ × (ℕ → ℕ)) (n' offset' : ℕ)
    → (offset + length bytes ≤ offset') ⊎ ((offset' + n' ≤ offset) × (part n' offset' f.0 ≡ n'))
    → read_file n' offset' (write_file bytes offset f) ≡ read_file n' offset' f
read-write_beside [] offset f n' offset' apart = refl
read-write_beside (b ∷ bytes) offset f n' offset' apart =
    ap (λ m. cells m offset' (write_file (b ∷ bytes) offset f).1) parts
    ∙ cells-same (part n' offset' f.0) offset' (write_file (b ∷ bytes) offset f).1 f.1
        (λ x low high.
          over_outside offset (b ∷ bytes) (λ y. if ltb y f.0 then f.1 y else 0) x (side x low high)
          ∙ inside x low high)
  where
    parts : part n' offset' (write_file (b ∷ bytes) offset f).0 ≡ part n' offset' f.0
    parts = elim apart [ inl behind ↦ ground arith | inr before ↦ ground arith ]

    side :
        (x : ℕ)
        → offset' ≤ x
        → x < offset' + part n' offset' f.0
        → (x < offset) ⊎ (offset + length (b ∷ bytes) ≤ x)
    side x low high = elim apart [
      | inl behind ↦ inr (omega arith)
      | inr before ↦ inl (ground arith)
    ]

    inside :
        (x : ℕ)
        → offset' ≤ x
        → x < offset' + part n' offset' f.0
        → (if ltb x f.0 then f.1 x else 0) ≡ f.1 x
    inside x low high = ground arith

written_same :
    (fd : FileFd) (bytes : Bytes) (offset : ℕ) (d : Files)
    → written fd bytes offset d fd ≡ write_file bytes offset (d fd)
written_same fd bytes offset d =
    let same : eqb_ℤ fd fd ≡ true = (eqb_ℤ_iff fd fd).1 refl in
    ap (λ b. if b then write_file bytes offset (d fd) else d fd) same

read-written :
    (fd : FileFd) (bytes : Bytes) (offset : ℕ) (d : Files)
    → read_file (length bytes) offset (written fd bytes offset d fd) ≡ bytes
read-written fd bytes offset d =
    ap (read_file (length bytes) offset) (written_same fd bytes offset d)
    ∙ read-write bytes offset (d fd)

read-written_beside :
    (fd : FileFd) (bytes : Bytes) (offset : ℕ) (d : Files) (fd' : FileFd) (n' offset' : ℕ)
    → (fd ≢ fd')
      ⊎ ((offset + length bytes ≤ offset')
          ⊎ ((offset' + n' ≤ offset) × (part n' offset' (d fd).0 ≡ n')))
    → read_file n' offset' (written fd bytes offset d fd') ≡ read_file n' offset' (d fd')
read-written_beside fd bytes offset d fd' n' offset' apart = elim (Bool-cases (eqb_ℤ fd' fd)) [
  | inr ne ↦ ap (λ b. read_file n' offset' (if b then write_file bytes offset (d fd) else d fd')) ne
  | inl e ↦
      let same : fd' ≡ fd = (eqb_ℤ_iff fd' fd).0 e in
      ap (λ b. read_file n' offset' (if b then write_file bytes offset (d fd) else d fd')) e
      ∙ read-write_beside bytes offset (d fd) n' offset'
          (elim apart [ inl ne ↦ absurd (ne (sym same)) | inr there ↦ there ])
      ∙ ap (λ y. read_file n' offset' (d y)) (sym same)
]

written_nothing :
    (fd : FileFd) (offset : ℕ) (d : Files) (fd' : FileFd) → written fd [] offset d fd' ≡ d fd'
written_nothing fd offset d fd' = elim (Bool-cases (eqb_ℤ fd' fd)) [
  | inr ne ↦ ap (λ b. if b then d fd else d fd') ne
  | inl e ↦
      let same : fd' ≡ fd = (eqb_ℤ_iff fd' fd).0 e in
      ap (λ b. if b then d fd else d fd') e ∙ ap d (sym same)
]

-- A read that gets all its bytes is of a part that the file has.
pub read-full :
    (n offset : ℕ) (f : ℕ × (ℕ → ℕ)) (bytes : Bytes)
    → some (read_file n offset f) ≡ some bytes
    → length bytes ≡ n
    → part n offset f.0 ≡ n
read-full n offset f bytes e l =
    let same : read_file n offset f ≡ bytes = cc in
    sym (length-cells (part n offset f.0) offset f.1) ∙ ap length same ∙ l

memory-pwrite :
    (fd : FileFd) (bytes old : Bytes) (offset : ℕ) (d : Files)
    → some (read_file (length bytes) offset (d fd)) ≡ some old
    → length old ≡ length bytes
    → Pwritten memory fd (length bytes) bytes offset d (written fd bytes offset d)
memory-pwrite fd bytes old offset d e l = record {
  here = ap some (read-written fd bytes offset d);
  elsewhere = λ fd' n' offset' apart. elim apart [
    | inl ne ↦ ap some (read-written_beside fd bytes offset d fd' n' offset' (inl ne))
    | inr (inl behind) ↦
        ap some (read-written_beside fd bytes offset d fd' n' offset' (inr (inl behind)))
    | inr (inr before) ↦ elim (empty_or bytes) [
      | inl none_new ↦
          ap (λ bs. some (read_file n' offset' (written fd bs offset d fd'))) none_new
          ∙ ap (λ f. some (read_file n' offset' f)) (written_nothing fd offset d fd')
      | inr some_new ↦
          let whole = read-full (length bytes) offset (d fd) old e l in
          ap some (
            read-written_beside fd bytes offset d fd' n' offset'
              (inr (inr (before, all_there n' offset' (d fd).0 before whole some_new))))
    ]
  ];
}
  where
    all_there :
        (n' offset' size : ℕ)
        → offset' + n' ≤ offset
        → part (length bytes) offset size ≡ length bytes
        → 0 < length bytes
        → part n' offset' size ≡ n'
    all_there n' offset' size before whole some_new = ground arith

    empty_or : (bs : Bytes) → (bs ≡ []) ⊎ (0 < length bs)
    empty_or [] = inl refl
    empty_or (b ∷ bs) = inr (omega arith)

memory-fallocate :
    (fd : FileFd) (n : ℕ) (offset : ℕ) (d : Files)
    → Fallocated memory fd n offset d (written fd (zeros n) offset d)
memory-fallocate fd n offset d = record {
  zeroed =
      ap (λ m. some (read_file m offset (written fd (zeros n) offset d fd)))
        (sym (length-replicate {A = ℕ} n 0))
      ∙ ap some (read-written fd (zeros n) offset d);
  before = λ n' offset' bytes low e l.
      let whole = read-full n' offset' (d fd) bytes e l in
      ap some (read-written_beside fd (zeros n) offset d fd n' offset' (inr (inr (low, whole))))
      ∙ e;
  elsewhere = λ fd' n' offset' apart. ap some (
      read-written_beside fd (zeros n) offset d fd' n' offset' (elim apart [
        | inl ne ↦ inl ne
        | inr behind ↦ inr (inl (omega (arith, length-replicate {A = ℕ} n 0)))
      ]));
}

pub memory-Lawful : LawfulOs memory
memory-Lawful = record {
  pwrite_lem = λ fd n bytes old offset d e l h. (
    written fd bytes offset d,
    ap (λ m. some (m, written fd bytes offset d)) h,
    subst (λ m. Pwritten memory fd m bytes offset d (written fd bytes offset d)) h
        (memory-pwrite fd bytes old offset d (ap (λ m. some (read_file m offset (d fd))) h ∙ e)
          (l ∙ sym h)),
  );
  fallocate_lem = λ fd n old offset d e l.
      (written fd (zeros n) offset d, refl, memory-fallocate fd n offset d);
}

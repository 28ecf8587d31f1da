-- ===== src/Tx/Server/Isolation.antt =====
-- First committer wins: the committed transactions of a server, whatever messages it gets.
use simple_db.Base.{
  ◌≡◌, ◌≢◌, sym, ◌∙◌, ap, ◌⊎◌, inl, inr, true, Option, none, some, ok, arith, int_eq, ◌≤ℤ◌,
  eqb_ℤ_iff, if◌then◌else◌, ◌==◌, Bool-cases,
}
use simple_db.Tx.Types.{TxId, Timestamp, Key}
use simple_db.Tx.Msg.{Message}
use simple_db.Tx.Storage.{Storage}
use simple_db.Tx.Storage.Last.{IsValid}
use simple_db.Tx.ServerTx.{ServerTx, committed, apply_puts, find_conflict}
use simple_db.Tx.ServerTx.Commit.{
  writes, Since, NoConflict-of_none, apply_puts-IsValid, Since-apply_puts, Since-apply_puts_self,
}
use simple_db.Tx.ServerTx.Effect.{Effect, early, ignored, opened, buffered, aborted, accepted}

-- The transactions by their ids.
abbrev pub Lookup : Type 0
Lookup = TxId → Option ServerTx

abbrev pub assign : Lookup → TxId → ServerTx → Lookup
assign look id tx j = if j == id then some tx else look j

abbrev pub Committed : Lookup → TxId → ServerTx → Type 0
Committed look j c = (look j ≡ some c) × (c.state ≡ committed)

-- The times from read to commit of two transactions do not overlap.
abbrev pub Apart : ServerTx → ServerTx → Type 0
Apart a b = (a.commit_ts ≤ℤ b.read_ts) ⊎ (b.commit_ts ≤ℤ a.read_ts)

pub record Isolated (look : Lookup) (s : Storage) : Type 0 where
  pub valid : IsValid s
  pub written :
      (j : TxId) (c : ServerTx) (k : Key)
      → Committed look j c
      → writes k c.puts ≡ true
      → Since s k c.commit_ts
  pub apart :
      (i j : TxId) (a b : ServerTx) (k : Key)
      → i ≢ j
      → Committed look i a
      → Committed look j b
      → writes k a.puts ≡ true
      → writes k b.puts ≡ true
      → Apart a b

-- Only the answers of the lookup count.
pub Isolated-ext :
    {look look' : Lookup} {s : Storage}
    → ((j : TxId) → look' j ≡ look j)
    → Isolated look s
    → Isolated look' s
Isolated-ext same inv = record {
  valid = inv.valid;
  written = λ j c k (found, st) w. inv.written j c k (sym (same j) ∙ found, st) w;
  apart = λ i j a b k ne (fa, sa) (fb, sb) wa wb.
      inv.apart i j a b k ne (sym (same i) ∙ fa, sa) (sym (same j) ∙ fb, sb) wa wb;
}

module _ (look : Lookup) (id : TxId) (tx : ServerTx) where
  -- A committed transaction after a write is the one that was written, or was there before.
  assign-Committed :
      (j : TxId) (c : ServerTx)
      → Committed (assign look id tx) j c
      → ((j ≡ id) × (c ≡ tx) × (tx.state ≡ committed)) ⊎ ((j ≢ id) × Committed look j c)
  assign-Committed j c (found, st) = elim (Bool-cases (j == id)) [
    | inl same ↦ inl ((eqb_ℤ_iff j id).0 same, ground arith, ground arith)
    | inr other ↦ inr (ground (arith, eqb_ℤ_iff j id), (ground arith, st))
  ]

  Committed-assign :
      (j : TxId) (c : ServerTx) → j ≢ id → Committed look j c → Committed (assign look id tx) j c
  Committed-assign j c ne (found, st) = (ground (arith, eqb_ℤ_iff j id), st)

-- A transaction that is not committed counts for nothing.
pub assign-Isolated :
    (look : Lookup) (id : TxId) (tx tx' : ServerTx) (s : Storage)
    → tx'.state ≢ committed
    → Isolated (assign look id tx) s
    → Isolated (assign look id tx') s
assign-Isolated look id tx tx' s live inv = record {
  valid = inv.valid;
  written = λ j c k m w. inv.written j c k (keep j c m) w;
  apart = λ i j a b k ne ma mb wa wb. inv.apart i j a b k ne (keep i a ma) (keep j b mb) wa wb;
}
  where
    keep :
        (j : TxId) (c : ServerTx)
        → Committed (assign look id tx') j c
        → Committed (assign look id tx) j c
    keep j c m = elim (assign-Committed look id tx' j c m) [
      | inl (same, mine, st) ↦ absurd (live st)
      | inr (ne, old) ↦ Committed-assign look id tx j c ne old
    ]

pub assign-Isolated_new :
    (look : Lookup) (id : TxId) (tx : ServerTx) (s : Storage)
    → tx.state ≢ committed
    → Isolated look s
    → Isolated (assign look id tx) s
assign-Isolated_new look id tx s live inv = record {
  valid = inv.valid;
  written = λ j c k m w. inv.written j c k (keep j c m) w;
  apart = λ i j a b k ne ma mb wa wb. inv.apart i j a b k ne (keep i a ma) (keep j b mb) wa wb;
}
  where
    keep : (j : TxId) (c : ServerTx) → Committed (assign look id tx) j c → Committed look j c
    keep j c m = elim (assign-Committed look id tx j c m) [
      | inl (same, mine, st) ↦ absurd (live st)
      | inr (ne, old) ↦ old
    ]

-- The commit of `tx` as `tx'` at `ts`.
module _ (look : Lookup) (id : TxId) (ts : Timestamp) (tx tx' : ServerTx) (s : Storage)
    (inv : Isolated (assign look id tx) s) (read : tx'.read_ts ≡ tx.read_ts)
    (commit : tx'.commit_ts ≡ ts) (puts : tx'.puts ≡ tx.puts)
    (free : find_conflict tx.read_ts tx.puts s ≡ ok none) where
  -- Another transaction that wrote a key of the commit ended before the commit's read.
  older :
      (j : TxId) (c : ServerTx) (k : Key)
      → j ≢ id
      → Committed look j c
      → writes k c.puts ≡ true
      → writes k tx'.puts ≡ true
      → c.commit_ts ≤ℤ tx'.read_ts
  older j c k ne m w w' =
      let (o, found, later) = inv.written j c k (Committed-assign look id tx j c ne m) w in
      let until : o.0 ≤ℤ tx.read_ts =
        NoConflict-of_none tx.read_ts tx.puts s inv.valid free k (rw puts at w') o found in
      rw read (omega arith)

  accepted-written :
      (j : TxId) (c : ServerTx) (k : Key)
      → Committed (assign look id tx') j c
      → writes k c.puts ≡ true
      → Since (apply_puts tx.txid ts tx.puts s) k c.commit_ts
  accepted-written j c k m w = elim (assign-Committed look id tx' j c m) [
    | inl (same, mine, st) ↦ rw (ap (λ (t : ServerTx). t.commit_ts) mine ∙ commit) (
        Since-apply_puts_self k tx.txid ts tx.puts s inv.valid
          (rw (ap (λ (t : ServerTx). t.puts) mine ∙ puts) at w))
    | inr (ne, old) ↦
        Since-apply_puts k c.commit_ts tx.txid ts tx.puts s inv.valid
          (inv.written j c k (Committed-assign look id tx j c ne old) w)
  ]

  accepted-Apart :
      (i j : TxId) (a b : ServerTx) (k : Key)
      → i ≢ j
      → Committed (assign look id tx') i a
      → Committed (assign look id tx') j b
      → writes k a.puts ≡ true
      → writes k b.puts ≡ true
      → Apart a b
  accepted-Apart i j a b k ne ma mb wa wb =
      go (assign-Committed look id tx' i a ma) (assign-Committed look id tx' j b mb)
    where
      go :
          ((i ≡ id) × (a ≡ tx') × (tx'.state ≡ committed)) ⊎ ((i ≢ id) × Committed look i a)
          → ((j ≡ id) × (b ≡ tx') × (tx'.state ≡ committed)) ⊎ ((j ≢ id) × Committed look j b)
          → Apart a b
      go (inl (ia, ea, sa)) (inl (jb, eb, sb)) = absurd (ne (ia ∙ sym jb))
      go (inl (ia, ea, sa)) (inr (nj, old)) = inr (
          rw (ap (λ (t : ServerTx). t.read_ts) ea)
            (older j b k nj old wb (rw (ap (λ (t : ServerTx). t.puts) ea) at wa)))
      go (inr (ni, old)) (inl (jb, eb, sb)) = inl (
          rw (ap (λ (t : ServerTx). t.read_ts) eb)
            (older i a k ni old wa (rw (ap (λ (t : ServerTx). t.puts) eb) at wb)))
      go (inr (ni, oa)) (inr (nj, ob)) =
          inv.apart i j a b k ne (Committed-assign look id tx i a ni oa)
            (Committed-assign look id tx j b nj ob) wa wb

  accepted-Isolated : Isolated (assign look id tx') (apply_puts tx.txid ts tx.puts s)
  accepted-Isolated = record {
    valid = apply_puts-IsValid tx.txid ts tx.puts s inv.valid;
    written = accepted-written;
    apart = accepted-Apart;
  }

-- Every step of a transaction keeps the server's transactions isolated.
pub Effect-Isolated :
    (look : Lookup) (id : TxId) (ts : Timestamp) (msg : Message) (tx tx' : ServerTx)
    (s s' : Storage)
    → Effect ts msg tx s tx' s'
    → Isolated (assign look id tx) s
    → Isolated (assign look id tx') s'
Effect-Isolated look id ts msg tx tx' s s' (early st t e f) inv = rw (e, f) inv
Effect-Isolated look id ts msg tx tx' s s' (opened p st t got fresh e f) inv =
    rw f (
      assign-Isolated look id tx tx' s (λ c. let live = ap (λ (t : ServerTx). t.state) e in cc) inv)
Effect-Isolated look id ts msg tx tx' s s' (ignored st t u e f) inv = rw (e, f) inv
Effect-Isolated look id ts msg tx tx' s s' (buffered p st t got e f) inv =
    rw f (
      assign-Isolated look id tx tx' s (λ c. let live = ap (λ (t : ServerTx). t.state) e in cc) inv)
Effect-Isolated look id ts msg tx tx' s s' (aborted other st t clash e f) inv =
    rw f (
      assign-Isolated look id tx tx' s (λ c. let live = ap (λ (t : ServerTx). t.state) e in cc) inv)
Effect-Isolated look id ts msg tx tx' s s' (accepted st t free e f) inv = rw f (
    accepted-Isolated look id ts tx tx' s inv (ap (λ (t : ServerTx). t.read_ts) e)
      (ap (λ (t : ServerTx). t.commit_ts) e) (ap (λ (t : ServerTx). t.puts) e) free)

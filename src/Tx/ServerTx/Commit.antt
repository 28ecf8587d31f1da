-- ===== src/Tx/ServerTx/Commit.antt =====
-- The commit of server_tx.cpp against the storage: the test for conflicts, and the writes.
use simple_db.Base.{
  ◌≡◌, refl, sym, ap, ◌∙◌, ◌⊎◌, inl, inr, Bool, true, false, ◌||◌, List, [], ◌∷◌, Option, none,
  some, ok, arith, int_eq, ◌<ℤ◌, ◌≤ℤ◌, ltb_ℤ, eqb_ℤ_iff, if◌then◌else◌, ◌==◌, Option-cases,
  Bool-cases,
}
use simple_db.Tx.Types.{TxId, Timestamp, Key, Value}
use simple_db.Tx.Storage.{TagValue, Storage, last, get_last, history, apply}
use simple_db.Tx.Storage.Last.{
  Entry, newest, IsValid, get_last-history, get_last-apply, apply-IsValid,
}
use simple_db.Tx.ServerTx.{DataPut, find_conflict, apply_puts}

-- Some put is to the key.
abbrev pub writes : Key → List DataPut → Bool
writes k [] = false
writes k (p ∷ puts) = k == p.key || writes k puts

-- The value of the first put to the key.
abbrev pub first_value : Key → List DataPut → Option Value
first_value k [] = none
first_value k (p ∷ puts) = if k == p.key then some p.value else first_value k puts

-- The newest value of the key is of the time `t` or later.
abbrev pub Since : Storage → Key → Timestamp → Type 0
Since s k t = (o : Entry) × (get_last k s ≡ ok (some o)) × (t ≤ℤ o.0)

-- The newest value of the key, if there is one, is not later than `t`.
abbrev pub Until : Storage → Key → Timestamp → Type 0
Until s k t = (o : Entry) → get_last k s ≡ ok (some o) → o.0 ≤ℤ t

Since-apply_self :
    (id : TxId) (ts : Timestamp) (k : Key) (v : Value) (s : Storage)
    → IsValid s
    → Since (apply id ts k v s) k ts
Since-apply_self id ts k v s valid = (
  newest (last (history k s)) (ts, record { txid = id; value = v }),
  ground (arith, get_last-apply k id ts k v s valid, eqb_ℤ_iff k k),
  ground arith,
)

Since-apply :
    (j : Key) (t : Timestamp) (id : TxId) (ts : Timestamp) (k : Key) (v : Value) (s : Storage)
    → IsValid s
    → Since s j t
    → Since (apply id ts k v s) j t
Since-apply j t id ts k v s valid (o, found, later) = elim (Bool-cases (j == k)) [
  | inl same ↦ (
    newest (some o) (ts, record { txid = id; value = v }),
    ground (arith, get_last-apply j id ts k v s valid, eqb_ℤ_iff j k, get_last-history j s valid),
    ground arith,
  )
  | inr other ↦ (o, ground (arith, get_last-apply j id ts k v s valid), later)
]

pub apply_puts-IsValid :
    (id : TxId) (ts : Timestamp) (puts : List DataPut) (s : Storage)
    → IsValid s
    → IsValid (apply_puts id ts puts s)
unfolding apply_puts
apply_puts-IsValid id ts [] s valid = valid
apply_puts-IsValid id ts (p ∷ puts) s valid =
    apply_puts-IsValid id ts puts (apply id ts p.key p.value s)
      (apply-IsValid id ts p.key p.value s valid)

-- A commit does not set the newest value of any key back.
pub Since-apply_puts :
    (j : Key) (t : Timestamp) (id : TxId) (ts : Timestamp) (puts : List DataPut) (s : Storage)
    → IsValid s
    → Since s j t
    → Since (apply_puts id ts puts s) j t
unfolding apply_puts
Since-apply_puts j t id ts [] s valid since = since
Since-apply_puts j t id ts (p ∷ puts) s valid since =
    Since-apply_puts j t id ts puts (apply id ts p.key p.value s)
      (apply-IsValid id ts p.key p.value s valid)
      (Since-apply j t id ts p.key p.value s valid since)

-- After a commit every key that it wrote is as new as the commit.
pub Since-apply_puts_self :
    (j : Key) (id : TxId) (ts : Timestamp) (puts : List DataPut) (s : Storage)
    → IsValid s
    → writes j puts ≡ true
    → Since (apply_puts id ts puts s) j ts
unfolding apply_puts
Since-apply_puts_self j id ts [] s valid w = cc
Since-apply_puts_self j id ts (p ∷ puts) s valid w = elim (Bool-cases (j == p.key)) [
  | inl same ↦
      Since-apply_puts j ts id ts puts (apply id ts p.key p.value s)
        (apply-IsValid id ts p.key p.value s valid)
        (rw ((eqb_ℤ_iff j p.key).0 same) (Since-apply_self id ts p.key p.value s valid))
  | inr other ↦
      Since-apply_puts_self j id ts puts (apply id ts p.key p.value s)
        (apply-IsValid id ts p.key p.value s valid) (ground arith)
]

abbrev NoConflict : Timestamp → List DataPut → Storage → Type 0
NoConflict read_ts puts s = (k : Key) → writes k puts ≡ true → Until s k read_ts

abbrev Conflict : Timestamp → List DataPut → Storage → TxId → Type 0
Conflict read_ts puts s id =
    (k : Key) × (o : Entry) × (writes k puts ≡ true)
    × (get_last k s ≡ ok (some o))
    × (read_ts <ℤ o.0)
    × (id ≡ o.1.txid)

NoConflict-cons :
    (read_ts : Timestamp) (p : DataPut) (puts : List DataPut) (s : Storage)
    → Until s p.key read_ts
    → NoConflict read_ts puts s
    → NoConflict read_ts (p ∷ puts) s
NoConflict-cons read_ts p puts s old rest k w o e = elim (Bool-cases (k == p.key)) [
  | inl same ↦ old o (rw ((eqb_ℤ_iff k p.key).0 same) at e)
  | inr other ↦ rest k (ground arith) o e
]

-- What the loop over the puts answers, in a valid storage.
abbrev pub Answers : Timestamp → List DataPut → Storage → Type 0
Answers read_ts puts s =
    ((find_conflict read_ts puts s ≡ ok none) × NoConflict read_ts puts s)
    ⊎ ((id : TxId) × (find_conflict read_ts puts s ≡ ok (some id)) × Conflict read_ts puts s id)

Answers-cons :
    (read_ts : Timestamp) (p : DataPut) (puts : List DataPut) (s : Storage) (o : Option Entry)
    → get_last p.key s ≡ ok o
    → Answers read_ts puts s
    → Answers read_ts (p ∷ puts) s
unfolding find_conflict
Answers-cons read_ts p puts s none e (inl (found, free)) =
    inl (ground arith, NoConflict-cons read_ts p puts s (λ o e'. cc) free)
Answers-cons read_ts p puts s none e (inr (id, found, (k, o, w, g, late, same))) =
    inr (id, ground arith, (k, o, ground arith, g, late, same))
Answers-cons read_ts p puts s (some f) e rest = elim (Bool-cases (ltb_ℤ read_ts f.0)) [
  | inl late ↦ inr (
    f.1.txid,
    ground arith,
    (p.key, f, ground (arith, eqb_ℤ_iff p.key p.key), e, ground arith, refl),
  )
  | inr early ↦ pass rest early
]
  where
    pass : Answers read_ts puts s → ltb_ℤ read_ts f.0 ≡ false → Answers read_ts (p ∷ puts) s
    pass (inl (found, free)) early =
        inl (ground arith, NoConflict-cons read_ts p puts s (λ o e'. ground arith) free)
    pass (inr (id, found, (k, o, w, g, late, same))) early =
        inr (id, ground arith, (k, o, ground arith, g, late, same))

-- The loop ends without a fault. It finds no conflict exactly if no key of the puts has a value
-- that is newer than the read, and otherwise gives the txid of such a value.
pub find_conflict-Answers :
    (read_ts : Timestamp) (puts : List DataPut) (s : Storage) → IsValid s → Answers read_ts puts s
unfolding find_conflict
find_conflict-Answers read_ts [] s valid = inl (refl, λ k w. cc)
find_conflict-Answers read_ts (p ∷ puts) s valid =
    Answers-cons read_ts p puts s (last (history p.key s)) (get_last-history p.key s valid)
      (find_conflict-Answers read_ts puts s valid)

pub NoConflict-of_none :
    (read_ts : Timestamp) (puts : List DataPut) (s : Storage)
    → IsValid s
    → find_conflict read_ts puts s ≡ ok none
    → NoConflict read_ts puts s
NoConflict-of_none read_ts puts s valid e = elim (find_conflict-Answers read_ts puts s valid) [
  | inl (found, free) ↦ free
  | inr (id, found, conflict) ↦ cc
]

-- A value of the time of the commit stays.
get_last-apply_puts_same :
    (k : Key) (id : TxId) (ts : Timestamp) (puts : List DataPut) (tag : TagValue) (s : Storage)
    → IsValid s
    → get_last k s ≡ ok (some (ts, tag))
    → get_last k (apply_puts id ts puts s) ≡ ok (some (ts, tag))
unfolding apply_puts
get_last-apply_puts_same k id ts [] tag s valid e = e
get_last-apply_puts_same k id ts (p ∷ puts) tag s valid e =
    get_last-apply_puts_same k id ts puts tag (apply id ts p.key p.value s)
      (apply-IsValid id ts p.key p.value s valid)
      (ground (
        arith,
        get_last-apply k id ts p.key p.value s valid,
        get_last-history k s valid,
        eqb_ℤ_iff k p.key,
      ))

-- After a commit, later than every value that it meets, a key shows the first value that was put
-- to it, with the txid and time of the commit, and what it showed before if nothing was put to it.
pub get_last-apply_puts :
    (k : Key) (id : TxId) (ts : Timestamp) (puts : List DataPut) (s : Storage)
    → IsValid s
    → ((o : Entry) → get_last k s ≡ ok (some o) → o.0 <ℤ ts)
    → get_last k (apply_puts id ts puts s) ≡ elim (first_value k puts) [
      | none ↦ get_last k s
      | some v ↦ ok (some (ts, record { txid = id; value = v }))
    ]
unfolding apply_puts
get_last-apply_puts k id ts [] s valid old = refl
get_last-apply_puts k id ts (p ∷ puts) s valid old = elim (Bool-cases (k == p.key)) [
  | inl same ↦ ground (
    arith,
    get_last-apply_puts_same k id ts puts (record { txid = id; value = p.value })
        (apply id ts p.key p.value s) (apply-IsValid id ts p.key p.value s valid) (written same),
  )
  | inr other ↦ ground (
    arith,
    get_last-apply k id ts p.key p.value s valid,
    get_last-apply_puts k id ts puts (apply id ts p.key p.value s)
        (apply-IsValid id ts p.key p.value s valid) (λ o e. old o (sym (kept other) ∙ e)),
  )
]
  where
    written :
        (k == p.key) ≡ true
        → get_last k (apply id ts p.key p.value s)
          ≡ ok (some (ts, record { txid = id; value = p.value }))
    written same = elim (Option-cases (last (history p.key s))) [
      | inl fresh ↦ ground (arith, get_last-apply k id ts p.key p.value s valid)
      | inr (o, found) ↦ ground (
        arith,
        get_last-apply k id ts p.key p.value s valid,
        old o (
            ap (λ j. get_last j s) ((eqb_ℤ_iff k p.key).0 same)
            ∙ get_last-history p.key s valid
            ∙ ap ok found),
      )
    ]

    kept : (k == p.key) ≡ false → get_last k (apply id ts p.key p.value s) ≡ get_last k s
    kept other = ground (arith, get_last-apply k id ts p.key p.value s valid)

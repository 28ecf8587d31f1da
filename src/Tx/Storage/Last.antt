-- ===== src/Tx/Storage/Last.antt =====
-- The newest value of a key, under Storage::apply.
use simple_db.Base.{
  ◌≢◌, ◌≡◌, refl, inl, inr, [], ◌∷◌, Option, none, some, ok, arith, find, int_eq, find-insert, ◌<ℤ◌,
  ltb_ℤ, eq_of_parts, if◌then◌else◌, ◌==◌, Option-cases,
}
use simple_db.Tx.Types.{TxId, Timestamp, Key, Value}
use simple_db.Tx.Storage
use simple_db.Tx.Storage.{
  TagValue, HistoryValues, Storage, last, insert_entry, get_last, history, apply, checked_last,
}

abbrev pub Entry : Type 0
Entry = Timestamp × TagValue

-- Timestamps that ascend, from above `t`.
abbrev pub Above : Timestamp → HistoryValues → Type 0
Above t [] = Unit
Above t ((u, _) ∷ h) = (t <ℤ u) × Above u h

-- A std::map's order.
abbrev pub IsSorted : HistoryValues → Type 0
IsSorted [] = Unit
IsSorted ((t, _) ∷ h) = Above t h

-- The later of two entries, the old one if they are of one time.
abbrev pub newest : Option Entry → Entry → Entry
newest none e = e
newest (some o) e = if ltb_ℤ o.0 e.0 then e else o

last-Above :
    (t : Timestamp) (e : Entry) (h : HistoryValues)
    → Above t (e ∷ h)
    → (o : Entry) × (last (e ∷ h) ≡ some o) × (t <ℤ o.0)
unfolding last
last-Above t e [] a = (e, refl, a.0)
last-Above t e (f ∷ h) a = let (o, found, above) = last-Above e.0 f h a.1 in (o, found, omega arith)

last-cons-insert_entry :
    (e : Entry) (ts : Timestamp) (tag : TagValue) (h : HistoryValues)
    → last (e ∷ insert_entry ts tag h) ≡ last (insert_entry ts tag h)
unfolding last insert_entry
last-cons-insert_entry e ts tag [] = refl
last-cons-insert_entry e ts tag (f ∷ h) = ground arith

-- An entry that goes in becomes the last one exactly if it is the latest.
pub last-insert_entry :
    (ts : Timestamp) (tag : TagValue) (h : HistoryValues)
    → IsSorted h
    → last (insert_entry ts tag h) ≡ some (newest (last h) (ts, tag))
unfolding last insert_entry
last-insert_entry ts tag [] a = refl
last-insert_entry ts tag (e ∷ []) a = ground (arith, eq_of_parts ts e.0)
last-insert_entry ts tag (e ∷ f ∷ h) a =
    let (o, found, above) = last-Above e.0 f h a in
    ground (
      arith,
      last-insert_entry ts tag (f ∷ h) a.1,
      last-cons-insert_entry e ts tag (f ∷ h),
      eq_of_parts ts e.0,
    )

insert_entry-Above :
    (t ts : Timestamp) (tag : TagValue) (h : HistoryValues)
    → t <ℤ ts
    → Above t h
    → Above t (insert_entry ts tag h)
unfolding insert_entry
insert_entry-Above t ts tag [] b a = (b, tt)
insert_entry-Above t ts tag ((u, w) ∷ h) b a =
    ground (arith, insert_entry-Above u ts tag h, eq_of_parts ts u)

insert_entry-IsSorted :
    (ts : Timestamp) (tag : TagValue) (h : HistoryValues)
    → IsSorted h
    → IsSorted (insert_entry ts tag h)
unfolding insert_entry
insert_entry-IsSorted ts tag [] a = tt
insert_entry-IsSorted ts tag ((u, w) ∷ h) a =
    ground (arith, insert_entry-Above u ts tag h, eq_of_parts ts u)

-- Every history is sorted, and none is empty.
abbrev pub IsValid : Storage → Type 0
IsValid s = (k : Key) (h : HistoryValues) → find k s.values ≡ some h → IsSorted h × (h ≢ [])

pub init-IsValid : IsValid Storage.init
unfolding find
init-IsValid k h e = cc

history-IsSorted : (k : Key) (s : Storage) → IsValid s → IsSorted (history k s)
unfolding history
history-IsSorted k s v = elim (Option-cases (find k s.values)) [
  | inl e ↦ rw (e, history) tt
  | inr (h, e) ↦ rw (e, history) (v k h e).0
]

history-apply :
    (j : Key) (id : TxId) (ts : Timestamp) (k : Key) (v : Value) (s : Storage)
    → history j (apply id ts k v s) ≡ (
        if j == k
        then insert_entry ts (record { txid = id; value = v }) (history k s)
        else history j s)
unfolding history apply
history-apply j id ts k v s = ground (
  arith,
  find-insert j k (insert_entry ts (record { txid = id; value = v }) (history k s)) s.values,
)

insert_entry-ne-nil :
    (ts : Timestamp) (tag : TagValue) (h : HistoryValues) → insert_entry ts tag h ≢ []
unfolding insert_entry
insert_entry-ne-nil ts tag [] = ground arith
insert_entry-ne-nil ts tag (e ∷ h) = ground arith

-- The assert of get_last holds.
pub get_last-history : (k : Key) (s : Storage) → IsValid s → get_last k s ≡ ok (last (history k s))
unfolding get_last history last
get_last-history k s v = elim (Option-cases (find k s.values)) [
  | inl e ↦ rw (e, get_last, history)
  | inr (h, e) ↦ rw (e, get_last, history) (go h (v k h e).0 (v k h e).1)
]
  where
    go : (h : HistoryValues) → IsSorted h → h ≢ [] → checked_last (last h) ≡ ok (last h)
    go [] a n = absurd (n refl)
    go ((t, w) ∷ []) a n = refl
    go (e ∷ f ∷ h) a n = let (o, found, above) = last-Above e.0 f h a in rw found

pub apply-IsValid :
    (id : TxId) (ts : Timestamp) (k : Key) (v : Value) (s : Storage)
    → IsValid s
    → IsValid (apply id ts k v s)
unfolding apply
apply-IsValid id ts k v s valid j h e = ground (
  arith,
  find-insert j k (insert_entry ts (record { txid = id; value = v }) (history k s)) s.values,
  insert_entry-IsSorted ts (record { txid = id; value = v }) (history k s)
      (history-IsSorted k s valid),
  insert_entry-ne-nil ts (record { txid = id; value = v }) (history k s),
  valid j h,
)

-- In a valid storage a key that was applied shows the new entry, unless the storage holds one as
-- late or later; every other key shows what it did.
pub get_last-apply :
    (j : Key) (id : TxId) (ts : Timestamp) (k : Key) (v : Value) (s : Storage)
    → IsValid s
    → get_last j (apply id ts k v s) ≡ (
        if j == k
        then ok (some (newest (last (history k s)) (ts, record { txid = id; value = v })))
        else get_last j s)
get_last-apply j id ts k v s valid =
    rw
      (
        get_last-history j (apply id ts k v s) (apply-IsValid id ts k v s valid),
        history-apply j id ts k v s,
      )
      (ground (
        arith,
        last-insert_entry ts (record { txid = id; value = v }) (history k s)
            (history-IsSorted k s valid),
        get_last-history j s valid,
      ))

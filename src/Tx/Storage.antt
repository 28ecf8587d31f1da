-- ===== src/Tx/Storage.antt =====
-- src/tx/storage: for each key the history of its committed values, a std::map by timestamp.
pub mod Last
use simple_db.Base.{
  List, [], ◌∷◌, Option, none, some, Result, ok, err, assert_failed, Dict, find, insert, int_eq,
  ltb_ℤ, eqb_ℤ, if◌then◌else◌,
}
use simple_db.Tx.Types.{TxId, Timestamp, Key, Value}

pub record TagValue : Type 0 where
  pub txid : TxId
  pub value : Value

-- Ascending timestamps.
abbrev pub HistoryValues : Type 0
HistoryValues = List (Timestamp × TagValue)

pub record Storage : Type 0 where
  pub values : Dict Key HistoryValues

abbrev pub init : Storage
init = record { values = [] }

-- The last entry, the one at std::prev(end()).
unfoldable pub last : HistoryValues → Option (Timestamp × TagValue)
last [] = none
last (e ∷ []) = some e
last (e ∷ f ∷ h) = last (f ∷ h)

-- std::map::insert, which leaves an entry with the same timestamp as it is.
unfoldable pub insert_entry : Timestamp → TagValue → HistoryValues → HistoryValues
insert_entry ts tag [] = (ts, tag) ∷ []
insert_entry ts tag ((t, w) ∷ h) =
    let rest = insert_entry ts tag h in
    if ltb_ℤ ts t then (ts, tag) ∷ (t, w) ∷ h else if eqb_ℤ ts t then (t, w) ∷ h else (t, w) ∷ rest

abbrev checked_last : Option (Timestamp × TagValue) → Result (Option (Timestamp × TagValue))
checked_last none = err assert_failed
checked_last (some e) = ok (some e)

-- `none` is the null pointer for a key that was never written.
unfoldable pub get_last : Key → Storage → Result (Option (Timestamp × TagValue))
unfolding last
get_last k s = elim (find k s.values) [ none ↦ ok none | some h ↦ checked_last (last h) ]

-- data_[key], which default-constructs a missing history.
unfoldable pub history : Key → Storage → HistoryValues
history k s = elim (find k s.values) [ none ↦ [] | some h ↦ h ]

unfoldable pub apply : TxId → Timestamp → Key → Value → Storage → Storage
unfolding history insert_entry
apply txid commit_ts key value s = record {
  values =
      insert key (insert_entry commit_ts (record { txid = txid; value = value }) (history key s))
        s.values;
}

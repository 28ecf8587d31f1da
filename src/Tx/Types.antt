-- ===== src/Tx/Types.antt =====
-- src/tx/types.h: the identifiers of the transaction layer. An int64_t is an integer; the program
-- only counts such a value up by one, compares it and passes it on, and signed overflow is not
-- defined in C++, so no wrap-around is modelled. A MsgID is a uint32_t and wraps (see Generator).
use simple_db.Base.{ℕ, ℤ, negsuc, List}

abbrev pub ActorId : Type 0
ActorId = ℤ

abbrev pub MsgId : Type 0
MsgId = ℕ

abbrev pub Timestamp : Type 0
Timestamp = ℤ

abbrev pub Key : Type 0
Key = ℤ

abbrev pub Value : Type 0
Value = ℤ

abbrev pub TxId : Type 0
TxId = ℤ

abbrev pub undefined_tx_id : TxId
undefined_tx_id = negsuc 0

abbrev pub undefined_actor_id : ActorId
undefined_actor_id = negsuc 0

abbrev pub undefined_ts : Timestamp
undefined_ts = negsuc 0

-- [start, end)
pub record KeyInterval : Type 0 where
  pub start : Key
  pub end : Key

abbrev pub KeyIntervals : Type 0
KeyIntervals = List KeyInterval

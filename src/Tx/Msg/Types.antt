-- ===== src/Tx/Msg/Types.antt =====
-- src/tx/msg/msg_types.h and msg_payload.h: the payloads, and the variant of them.
use simple_db.Base.{Bool, false, ◌&&◌, Result, ok, err, bad_variant_access, eqb, eqb_ℤ}
use simple_db.Tx.Types.{TxId, Timestamp, Key, Value, MsgId}

pub record MsgStartPayload : Type 0 where
  pub txid : TxId
  pub read_ts : Timestamp

pub record MsgAckStartPayload : Type 0 where
  pub txid : TxId
  pub read_ts : Timestamp

pub record MsgPutPayload : Type 0 where
  pub txid : TxId
  pub key : Key
  pub value : Value

-- `msg_id` is that of the message replied to.
pub record MsgPutReplyPayload : Type 0 where
  pub txid : TxId
  pub msg_id : MsgId

pub record MsgCommitPayload : Type 0 where
  pub txid : TxId

pub record MsgCommitAckPayload : Type 0 where
  pub txid : TxId
  pub commit_ts : Timestamp

pub record MsgRolledBackByServerPayload : Type 0 where
  pub txid : TxId
  pub conflict_txid : TxId

pub data MsgPayload : Type 0 where
  start : MsgStartPayload → MsgPayload
  ack_start : MsgAckStartPayload → MsgPayload
  put : MsgPutPayload → MsgPayload
  put_reply : MsgPutReplyPayload → MsgPayload
  commit : MsgCommitPayload → MsgPayload
  commit_ack : MsgCommitAckPayload → MsgPayload
  rolled_back_by_server : MsgRolledBackByServerPayload → MsgPayload

-- std::get<T>, which throws at another alternative.
abbrev pub get_start : MsgPayload → Result MsgStartPayload
get_start (start p) = ok p
get_start _ = err bad_variant_access

abbrev pub get_ack_start : MsgPayload → Result MsgAckStartPayload
get_ack_start (ack_start p) = ok p
get_ack_start _ = err bad_variant_access

abbrev pub get_put : MsgPayload → Result MsgPutPayload
get_put (put p) = ok p
get_put _ = err bad_variant_access

abbrev pub get_put_reply : MsgPayload → Result MsgPutReplyPayload
get_put_reply (put_reply p) = ok p
get_put_reply _ = err bad_variant_access

abbrev pub get_commit : MsgPayload → Result MsgCommitPayload
get_commit (commit p) = ok p
get_commit _ = err bad_variant_access

abbrev pub get_commit_ack : MsgPayload → Result MsgCommitAckPayload
get_commit_ack (commit_ack p) = ok p
get_commit_ack _ = err bad_variant_access

abbrev pub get_rolled_back : MsgPayload → Result MsgRolledBackByServerPayload
get_rolled_back (rolled_back_by_server p) = ok p
get_rolled_back _ = err bad_variant_access

-- operator== of the payloads and of the variant.
abbrev pub eq_start : MsgStartPayload → MsgStartPayload → Bool
eq_start a b = eqb_ℤ a.txid b.txid && eqb_ℤ a.read_ts b.read_ts

abbrev pub eq_ack_start : MsgAckStartPayload → MsgAckStartPayload → Bool
eq_ack_start a b = eqb_ℤ a.txid b.txid && eqb_ℤ a.read_ts b.read_ts

abbrev pub eq_put : MsgPutPayload → MsgPutPayload → Bool
eq_put a b = eqb_ℤ a.txid b.txid && (eqb_ℤ a.key b.key && eqb_ℤ a.value b.value)

abbrev pub eq_put_reply : MsgPutReplyPayload → MsgPutReplyPayload → Bool
eq_put_reply a b = eqb_ℤ a.txid b.txid && eqb a.msg_id b.msg_id

abbrev pub eq_commit : MsgCommitPayload → MsgCommitPayload → Bool
eq_commit a b = eqb_ℤ a.txid b.txid

abbrev pub eq_commit_ack : MsgCommitAckPayload → MsgCommitAckPayload → Bool
eq_commit_ack a b = eqb_ℤ a.txid b.txid && eqb_ℤ a.commit_ts b.commit_ts

abbrev pub eq_rolled_back : MsgRolledBackByServerPayload → MsgRolledBackByServerPayload → Bool
eq_rolled_back a b = eqb_ℤ a.txid b.txid && eqb_ℤ a.conflict_txid b.conflict_txid

abbrev pub eq_payload : MsgPayload → MsgPayload → Bool
eq_payload (start a) (start b) = eq_start a b
eq_payload (ack_start a) (ack_start b) = eq_ack_start a b
eq_payload (put a) (put b) = eq_put a b
eq_payload (put_reply a) (put_reply b) = eq_put_reply a b
eq_payload (commit a) (commit b) = eq_commit a b
eq_payload (commit_ack a) (commit_ack b) = eq_commit_ack a b
eq_payload (rolled_back_by_server a) (rolled_back_by_server b) = eq_rolled_back a b
eq_payload _ _ = false

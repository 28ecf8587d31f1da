-- ===== src/Tx/Generator.antt =====
-- src/tx/generator: the two counters of the process, passed along as a state. Each call returns
-- the new id and the counters after it.
use simple_db.Base.{ℕ, ◌+◌, ◌%◌, ◌^◌, pos, suc_ℤ}
use simple_db.Tx.Types.{MsgId, TxId}

-- `msg_id` is the static of get_next_msg_id, and `txid` that of the file.
pub record Generator : Type 0 where
  pub msg_id : MsgId
  pub txid : TxId

abbrev pub init : Generator
init = record { msg_id = 0; txid = pos 1_000 }

-- MsgID is a uint32_t.
abbrev pub msg_id_mod : ℕ
msg_id_mod = 2 ^ 32

unfoldable pub get_next_msg_id : Generator → MsgId × Generator
get_next_msg_id g = let id = (g.msg_id + 1) % msg_id_mod in (id, record g { msg_id = id })

unfoldable pub get_next_tx_id : Generator → TxId × Generator
get_next_tx_id g = let id = suc_ℤ g.txid in (id, record g { txid = id })

unfoldable pub get_current_tx_id : Generator → TxId
get_current_tx_id g = g.txid

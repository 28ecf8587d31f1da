-- ===== src/Tx/Msg/Header.antt =====
-- src/tx/msg/message.h and message.cpp: messages, their order and equality, and the txid that a
-- message is about.
use simple_db.Base.{ℕ, Bool, ◌&&◌, ◌||◌, Result, ok, ◌>>=◌, eqb, ltb, eqb_ℤ, ltb_ℤ, List}
use simple_db.Tx.Types.{ActorId, MsgId, TxId, undefined_tx_id}
use simple_db.Tx.Msg.Types.{
  MsgPayload, get_start, get_ack_start, get_put, get_put_reply, get_commit, get_commit_ack,
  get_rolled_back, eq_payload,
}

pub data MessageType : Type 0 where
  msg_undefined msg_start msg_start_ack msg_put msg_put_reply msg_commit msg_commit_ack
        msg_rolled_back_by_server :
      MessageType

-- The value of the enumerator.
abbrev pub code_of : MessageType → ℕ
code_of msg_undefined = 0
code_of msg_start = 1
code_of msg_start_ack = 2
code_of msg_put = 3
code_of msg_put_reply = 4
code_of msg_commit = 5
code_of msg_commit_ack = 6
code_of msg_rolled_back_by_server = 7

pub record Message : Type 0 where
  pub type : MessageType
  pub source : ActorId
  pub destination : ActorId
  pub msg_id : MsgId
  pub payload : MsgPayload

abbrev pub Messages : Type 0
Messages = List Message

unfoldable pub eq_message : Message → Message → Bool
eq_message a b =
    eqb a.msg_id b.msg_id
    && (eqb (code_of a.type) (code_of b.type)
        && (eqb_ℤ a.source b.source
            && (eqb_ℤ a.destination b.destination && eq_payload a.payload b.payload)))

-- operator< of messages: the tuples (type, msg_id, source, destination) in lexicographic order.
unfoldable pub lt_message : Message → Message → Bool
lt_message a b =
    ltb (code_of a.type) (code_of b.type)
    || (eqb (code_of a.type) (code_of b.type)
        && (ltb a.msg_id b.msg_id
            || (eqb a.msg_id b.msg_id
                && (ltb_ℤ a.source b.source
                    || (eqb_ℤ a.source b.source && ltb_ℤ a.destination b.destination)))))

abbrev txid_of : MessageType → MsgPayload → Result TxId
txid_of msg_undefined p = ok undefined_tx_id
txid_of msg_start p = do q ← get_start p; ok q.txid
txid_of msg_start_ack p = do q ← get_ack_start p; ok q.txid
txid_of msg_put p = do q ← get_put p; ok q.txid
txid_of msg_put_reply p = do q ← get_put_reply p; ok q.txid
txid_of msg_commit p = do q ← get_commit p; ok q.txid
txid_of msg_commit_ack p = do q ← get_commit_ack p; ok q.txid
txid_of msg_rolled_back_by_server p = do q ← get_rolled_back p; ok q.txid

unfoldable pub get_txid_from_msg_payload : Message → Result TxId
get_txid_from_msg_payload msg = txid_of msg.type msg.payload

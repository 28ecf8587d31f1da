-- ===== src/Tx/Msg/Create.antt =====
-- src/tx/msg/message.cpp: the functions CreateMsg*. Each takes a fresh message id from the
-- generator.
use simple_db.Tx.Types.{ActorId, MsgId, TxId, Timestamp, Key, Value, undefined_ts}
use simple_db.Tx.Generator.{Generator, get_next_msg_id, get_next_tx_id}
use simple_db.Tx.Msg.Types.{
  MsgPayload, start, ack_start, put, put_reply, commit, commit_ack, rolled_back_by_server,
}
use simple_db.Tx.Msg.Header.{
  Message, MessageType, msg_start, msg_start_ack, msg_put, msg_put_reply, msg_commit,
  msg_commit_ack, msg_rolled_back_by_server,
}

-- A message under the next message id.
abbrev pub numbered : MessageType → ActorId → ActorId → MsgPayload → Generator → Message × Generator
numbered type source destination payload g =
    let (id, g') = get_next_msg_id g in
    (
      record {
        type = type;
        source = source;
        destination = destination;
        msg_id = id;
        payload = payload;
      },
      g',
    )

unfoldable pub create_msg_start : ActorId → ActorId → Generator → Message × Generator
create_msg_start source destination g =
    let (id, g₁) = get_next_msg_id g in
    let (txid, g₂) = get_next_tx_id g₁ in
    (
      record {
        type = msg_start;
        source = source;
        destination = destination;
        msg_id = id;
        payload = start (record { txid = txid; read_ts = undefined_ts });
      },
      g₂,
    )

unfoldable pub create_msg_start_ack :
    ActorId → ActorId → TxId → Timestamp → Generator → Message × Generator
create_msg_start_ack source destination txid read_ts =
    numbered msg_start_ack source destination
      (ack_start (record { txid = txid; read_ts = read_ts }))

unfoldable pub create_msg_put :
    ActorId → ActorId → TxId → Key → Value → Generator → Message × Generator
create_msg_put source destination txid key value =
    numbered msg_put source destination (put (record { txid = txid; key = key; value = value }))

unfoldable pub create_msg_put_reply :
    ActorId → ActorId → TxId → MsgId → Generator → Message × Generator
create_msg_put_reply source destination txid msg_id =
    numbered msg_put_reply source destination (put_reply (record { txid = txid; msg_id = msg_id }))

unfoldable pub create_msg_commit : ActorId → ActorId → TxId → Generator → Message × Generator
create_msg_commit source destination txid =
    numbered msg_commit source destination (commit (record { txid = txid }))

unfoldable pub create_msg_commit_ack :
    ActorId → ActorId → TxId → Timestamp → Generator → Message × Generator
create_msg_commit_ack source destination txid commit_ts =
    numbered msg_commit_ack source destination
      (commit_ack (record { txid = txid; commit_ts = commit_ts }))

unfoldable pub create_msg_rolled_back_by_server :
    ActorId → ActorId → TxId → TxId → Generator → Message × Generator
create_msg_rolled_back_by_server source destination txid conflict_txid =
    numbered msg_rolled_back_by_server source destination
      (rolled_back_by_server (record { txid = txid; conflict_txid = conflict_txid }))

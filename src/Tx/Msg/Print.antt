-- ===== src/Tx/Msg/Print.antt =====
-- The operators << of src/tx/msg, as the text that they put on a stream. How a stream writes a number
-- is a parameter.
use Prim.Native.String.{String, ◌++◌}
use simple_db.Base.{ℕ, ℤ}
use simple_db.Tx.Msg.Types.{
  MsgStartPayload, MsgAckStartPayload, MsgPutPayload, MsgPutReplyPayload, MsgCommitPayload,
  MsgCommitAckPayload, MsgRolledBackByServerPayload, MsgPayload, start, ack_start, put, put_reply,
  commit, commit_ack, rolled_back_by_server,
}
use simple_db.Tx.Msg.Header.{
  MessageType, msg_undefined, msg_start, msg_start_ack, msg_put, msg_put_reply, msg_commit,
  msg_commit_ack, msg_rolled_back_by_server, Message,
}
use simple_db.Tx.Msg.Sent.{SentMessage}

unfoldable pub print_type : MessageType → String
print_type msg_undefined = "MSG_UNDEFINED"
print_type msg_start = "MSG_START"
print_type msg_start_ack = "MSG_START_ACK"
print_type msg_put = "MSG_PUT"
print_type msg_put_reply = "MSG_PUT_REPLY"
print_type msg_commit = "MSG_COMMIT"
print_type msg_commit_ack = "MSG_COMMIT_ACK"
print_type msg_rolled_back_by_server = "MSG_ROLLED_BACK_BY_SERVER"

-- `int` writes an int64_t and `size` a size_t.
module _ (int : ℤ → String) (size : ℕ → String) where
  unfoldable pub print_start : MsgStartPayload → String
  print_start p = "MsgStartPayload: txid=" ++ int p.txid ++ ", read_ts=" ++ int p.read_ts

  unfoldable pub print_ack_start : MsgAckStartPayload → String
  print_ack_start p = "MsgAckStartPayload: txid=" ++ int p.txid ++ ", read_ts=" ++ int p.read_ts

  unfoldable pub print_put : MsgPutPayload → String
  print_put p =
      "MsgPutPayload: txid=" ++ int p.txid ++ ", key=" ++ int p.key ++ ", value=" ++ int p.value

  unfoldable pub print_put_reply : MsgPutReplyPayload → String
  print_put_reply p = "MsgPutReplyPayload: txid=" ++ int p.txid ++ ", msg_id=" ++ size p.msg_id

  unfoldable pub print_commit : MsgCommitPayload → String
  print_commit p = "MsgCommitPayload: txid=" ++ int p.txid

  unfoldable pub print_commit_ack : MsgCommitAckPayload → String
  print_commit_ack p =
      "MsgCommitAckPayload: txid=" ++ int p.txid ++ ", commit_ts=" ++ int p.commit_ts

  unfoldable pub print_rolled_back : MsgRolledBackByServerPayload → String
  print_rolled_back p =
      "MsgRolledBackByServerPayload: txid="
      ++ int p.txid
      ++ ", conflict_txid="
      ++ int p.conflict_txid

  -- The visitor of the variant.
  unfoldable pub print_payload : MsgPayload → String
  unfolding print_start print_ack_start print_put print_put_reply print_commit print_commit_ack
      print_rolled_back
  print_payload (start p) = print_start p
  print_payload (ack_start p) = print_ack_start p
  print_payload (put p) = print_put p
  print_payload (put_reply p) = print_put_reply p
  print_payload (commit p) = print_commit p
  print_payload (commit_ack p) = print_commit_ack p
  print_payload (rolled_back_by_server p) = print_rolled_back p

  unfoldable pub print_message : Message → String
  unfolding print_type print_payload
  print_message msg =
      "message "
      ++ "[type="
      ++ print_type msg.type
      ++ "]"
      ++ "[msg_id="
      ++ size msg.msg_id
      ++ "]"
      ++ "[source="
      ++ int msg.source
      ++ "]"
      ++ "[destination="
      ++ int msg.destination
      ++ "]"
      ++ " with payload: "
      ++ print_payload msg.payload

  unfoldable pub print_sent_message : SentMessage → String
  unfolding print_message
  print_sent_message sent =
      "message [type=SentMessage]"
      ++ "[send_ts="
      ++ int sent.send_timestamp
      ++ "]"
      ++ "[delivery_ts="
      ++ int sent.delivery_timestamp
      ++ "]"
      ++ " includes "
      ++ print_message sent.msg

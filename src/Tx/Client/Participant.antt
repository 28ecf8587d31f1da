-- ===== src/Tx/Client/Participant.antt =====
-- src/tx/client/tx_participant.h and tx_participant.cpp: a transaction's dealings with one server.
use simple_db.Base.{
  ℕ, Bool, true, false, List, [], ◌∷◌, Result, ok, err, ◌>>=◌, ◌>>◌, guard, assert_failed,
  invalid_argument, logic_error, not, eqb_ℤ,
}
use simple_db.Tx.Types.{ActorId, TxId, Timestamp, Key, Value, undefined_tx_id, undefined_ts}
use simple_db.Tx.Msg.{
  Message, Messages, msg_start_ack, msg_put_reply, get_ack_start, get_put_reply, create_msg_start,
  get_txid_from_msg_payload,
}
use simple_db.Tx.Retrier.{schedule}
use simple_db.Tx.Client.Requests.{RequestsManager, Post, complete_request, prepare_msg}
use simple_db.Tx.Client.Requests

pub data TxParticipantState : Type 0 where
  not_started start_msg_sent tx_open : TxParticipantState

pub record TxParticipant : Type 0 where
  pub client_tx_actor_id : ActorId
  pub coordinator_actor_id : ActorId
  pub req_manager : RequestsManager
  pub txid : TxId
  pub read_ts : Timestamp
  pub state : TxParticipantState

abbrev pub create : ActorId → ActorId → TxParticipant
create client coordinator = record {
  client_tx_actor_id = client;
  coordinator_actor_id = coordinator;
  req_manager = Requests.init;
  txid = undefined_tx_id;
  read_ts = undefined_ts;
  state = not_started;
}

unfoldable pub schedule_start_msg : Timestamp → TxParticipant → Post → Result (TxParticipant × Post)
schedule_start_msg ts p post = do
  let (msg, gen) = create_msg_start p.client_tx_actor_id p.coordinator_actor_id post.gen
  txid ← get_txid_from_msg_payload msg
  guard (not (eqb_ℤ txid undefined_tx_id)) assert_failed
  ok (
    record p { txid = txid; state = start_msg_sent },
    record { gen = gen; retrier = (schedule ts msg post.retrier).1 },
  )

unfoldable pub is_open : TxParticipant → Bool
is_open p = elim p.state [ tx_open ↦ true | _ ↦ false ]

unfoldable pub checked_read_ts : TxParticipant → Result Timestamp
checked_read_ts p = do guard (not (eqb_ℤ p.read_ts undefined_ts)) assert_failed; ok p.read_ts

unfoldable pub checked_txid : TxParticipant → Result TxId
checked_txid p = do guard (not (eqb_ℤ p.txid undefined_tx_id)) assert_failed; ok p.txid

abbrev ack_ts : Message → Result Timestamp
ack_ts msg = elim msg.type [
  | msg_start_ack ↦ do
    payload ← get_ack_start msg.payload
    guard (not (eqb_ℤ payload.read_ts undefined_ts)) assert_failed
    ok payload.read_ts
  | _ ↦ err logic_error
]

-- The loop over the replies to the start message: the read_ts of the last one.
unfoldable pub last_ack_ts : Messages → Timestamp → Result Timestamp
last_ack_ts [] ts = ok ts
last_ack_ts (msg ∷ msgs) ts = do ts' ← ack_ts msg; last_ack_ts msgs ts'

-- The part of process_replies_start_sent after the test for an empty vector.
open_with : Messages → TxParticipant → Result TxParticipant
open_with msgs p = do
  ts ← last_ack_ts msgs undefined_ts
  guard (eqb_ℤ p.read_ts undefined_ts) assert_failed
  guard (not (eqb_ℤ ts undefined_ts)) assert_failed
  ok (record p { read_ts = ts; state = tx_open })

unfoldable pub process_replies_start_sent : Messages → TxParticipant → Result TxParticipant
unfolding open_with
process_replies_start_sent [] p = ok p
process_replies_start_sent (msg ∷ msgs) p = open_with (msg ∷ msgs) p

unfoldable pub process_reply_open : Message → TxParticipant → Result TxParticipant
process_reply_open msg p = elim msg.type [
  | msg_put_reply ↦ do
    payload ← get_put_reply msg.payload
    m ← complete_request payload.msg_id p.req_manager
    ok (record p { req_manager = m })
  | _ ↦ ok p
]

unfoldable pub process_replies_open : Messages → TxParticipant → Result TxParticipant
unfolding process_reply_open
process_replies_open [] p = ok p
process_replies_open (msg ∷ msgs) p = do p' ← process_reply_open msg p; process_replies_open msgs p'

unfoldable pub process_incoming : Timestamp → Messages → TxParticipant → Result TxParticipant
unfolding process_replies_start_sent process_replies_open
process_incoming ts msgs p = elim p.state [
  | not_started ↦ err invalid_argument
  | start_msg_sent ↦ process_replies_start_sent msgs p
  | tx_open ↦ process_replies_open msgs p
]

abbrev pub send_requests : Timestamp → TxParticipant → Post → Result (TxParticipant × Post)
send_requests ts p post = do
  (m, post') ← prepare_msg p.client_tx_actor_id p.coordinator_actor_id p.txid ts p.req_manager post
  ok (record p { req_manager = m }, post')

unfoldable pub schedule_requests : Timestamp → TxParticipant → Post → Result (TxParticipant × Post)
schedule_requests ts p post = elim p.state [ tx_open ↦ send_requests ts p post | _ ↦ ok (p, post) ]

unfoldable pub add_put : Key → Value → TxParticipant → TxParticipant
add_put key value p = record p { req_manager = Requests.add_put key value p.req_manager }

unfoldable pub completed_puts : TxParticipant → ℕ
completed_puts p = p.req_manager.completed_puts

unfoldable pub export_results : TxParticipant → List (Key × Value) → List (Key × Value)
export_results p = Requests.export_results p.req_manager

-- ===== src/Tx/Client/Transaction.antt =====
-- src/tx/client/client_tx.h and client_tx.cpp: one transaction of a client.
pub mod Progress
pub mod Tick
use simple_db.Base.{
  ℕ, ◌+◌, Bool, true, false, ◌&&◌, List, [], ◌∷◌, ◌++◌, Option, none, some, Result, ok, err, ◌>>=◌,
  ◌>>◌, guard, or_fail, assert_failed, logic_error, null_pointer, out_of_range, length, get_elem?,
  leb_ℤ, eqb_ℤ, eqb, if◌then◌else◌, int_eq, Dict, find, insert,
}
use simple_db.Tx.Types.{
  ActorId, TxId, Timestamp, Key, Value, undefined_tx_id, undefined_actor_id, undefined_ts,
}
use simple_db.Tx.Discovery.{Discovery, get_by_key, get_random}
use simple_db.Tx.Msg.{
  Message, Messages, MessageType, msg_start_ack, msg_put_reply, msg_rolled_back_by_server,
  msg_commit_ack, get_rolled_back, get_commit_ack, create_msg_commit,
}
use simple_db.Tx.Retrier.{schedule, get_scheduled_msgs}
use simple_db.Tx.Client.Spec.{TxSpec, ClientTxPut, Action}
use simple_db.Tx.Client.Requests.{Post}
use simple_db.Tx.Client.Participant.{
  TxParticipant, schedule_start_msg, is_open, checked_read_ts, checked_txid, process_incoming,
  schedule_requests, add_put, completed_puts,
}
use simple_db.Tx.Client.Participant

pub data ClientTxState : Type 0 where
  not_started start_sent open_tx commit_sent committed rolled_back_by_server : ClientTxState

unfoldable pub progress_state : ClientTxState → ClientTxState
progress_state not_started = start_sent
progress_state start_sent = open_tx
progress_state open_tx = commit_sent
progress_state commit_sent = committed
progress_state committed = committed
progress_state rolled_back_by_server = committed

pub record ClientTx : Type 0 where
  pub actor_id : ActorId
  pub spec : TxSpec
  pub discovery : Discovery
  pub state : ClientTxState
  pub coordinator_actor_id : ActorId
  pub participants : Dict ActorId TxParticipant
  pub txid : TxId
  pub conflict_txid : TxId
  pub read_ts : Timestamp
  pub commit_ts : Timestamp
  pub next_get : ℕ
  pub next_put : ℕ

abbrev pub create : ActorId → TxSpec → Discovery → ClientTx
create actor_id spec discovery = record {
  actor_id = actor_id;
  spec = spec;
  discovery = discovery;
  state = not_started;
  coordinator_actor_id = undefined_actor_id;
  participants = [];
  txid = undefined_tx_id;
  conflict_txid = undefined_tx_id;
  read_ts = undefined_ts;
  commit_ts = undefined_ts;
  next_get = 0;
  next_put = 0;
}

-- The replies from one server, reply_messages_per_actor[actor_id].
unfoldable pub replies_of : ActorId → Messages → Messages
replies_of a [] = []
replies_of a (msg ∷ msgs) =
    let rest = replies_of a msgs in
    let mine = if eqb_ℤ a msg.source then msg ∷ rest else rest in
    elim msg.type [ msg_start_ack ↦ mine | msg_put_reply ↦ mine | _ ↦ rest ]

-- The other messages.
unfoldable pub external_of : Messages → Messages
external_of [] = []
external_of (msg ∷ msgs) =
    let rest = external_of msgs in
    elim msg.type [ msg_start_ack ↦ rest | msg_put_reply ↦ rest | _ ↦ msg ∷ rest ]

-- The first loop over the participants.
unfoldable pub incoming_all :
    Timestamp → Messages → Dict ActorId TxParticipant → Result (Dict ActorId TxParticipant)
incoming_all ts msgs [] = ok []
incoming_all ts msgs ((a, p) ∷ ps) = do
  p' ← process_incoming ts (replies_of a msgs) p
  ps' ← incoming_all ts msgs ps
  ok ((a, p') ∷ ps')

-- The last loop over the participants.
unfoldable pub requests_all :
    Timestamp → Dict ActorId TxParticipant → Post → Result (Dict ActorId TxParticipant × Post)
requests_all ts [] post = ok ([], post)
requests_all ts ((a, p) ∷ ps) post = do
  (p', post') ← schedule_requests ts p post
  (ps', post'') ← requests_all ts ps post'
  ok ((a, p') ∷ ps', post'')

unfoldable pub completed_requests : Dict ActorId TxParticipant → ℕ
unfolding completed_puts
completed_requests [] = 0
completed_requests ((a, p) ∷ ps) = completed_puts p + completed_requests ps

unfoldable pub configure_coordinator : Timestamp → ClientTx → Post → Result (ClientTx × Post)
configure_coordinator ts tx post = do
  coordinator ← get_random tx.discovery
  (p, post') ← schedule_start_msg ts (Participant.create tx.actor_id coordinator) post
  txid ← checked_txid p
  ok (
    record tx {
      coordinator_actor_id = coordinator;
      participants = insert coordinator p tx.participants;
      txid = txid;
    },
    post',
  )

unfoldable pub configure_read_ts : TxParticipant → ClientTx → Result ClientTx
configure_read_ts p tx = do ts ← checked_read_ts p; ok (record tx { read_ts = ts })

-- The coordinator is chosen, and the transaction moves on.
unfoldable pub begin_tx : Timestamp → ClientTx → Post → Result (ClientTx × Post)
unfolding configure_coordinator progress_state
begin_tx ts tx post = do
  (tx', post') ← configure_coordinator ts tx post
  ok (record tx' { state = progress_state tx'.state }, post')

-- The cases of the switch in `tick`.
unfoldable pub tick_not_started : Timestamp → Messages → ClientTx → Post → Result (ClientTx × Post)
unfolding begin_tx
tick_not_started ts msgs tx post = do
  guard (eqb (length msgs) 0) assert_failed
  if leb_ℤ tx.spec.earliest_start_ts ts then begin_tx ts tx post else ok (tx, post)

unfoldable pub tick_start_sent : ClientTx → Result ClientTx
unfolding configure_read_ts progress_state
tick_start_sent tx = do
  p ← or_fail (find tx.coordinator_actor_id tx.participants) out_of_range
  if is_open p
      then (do tx' ← configure_read_ts p tx; ok (record tx' { state = progress_state tx'.state }))
      else ok tx

-- The next put of the spec, if it is due, goes to the participant of its key.
abbrev due_put : Timestamp → ClientTx → Option ClientTxPut
due_put ts tx = elim (get_elem? tx.spec.puts tx.next_put) [
  | none ↦ none
  | some put ↦ if leb_ℤ put.earliest_ts ts then some put else none
]

unfoldable pub give_put : ClientTxPut → ClientTx → Result ClientTx
give_put put tx = do
  a ← get_by_key put.key tx.discovery
  p ← or_fail (find a tx.participants) null_pointer
  ok (record tx {
    participants = insert a (add_put put.key put.value p) tx.participants;
    next_put = tx.next_put + 1;
  })

unfoldable pub next_put_step : Timestamp → ClientTx → Result ClientTx
unfolding give_put
next_put_step ts tx = elim (due_put ts tx) [ none ↦ ok tx | some put ↦ give_put put tx ]

abbrev pub commits : Action → Bool
commits Action.commit = true
commits _ = false

unfoldable pub commit_step : Timestamp → ClientTx → Post → ClientTx × Post
unfolding completed_requests progress_state
commit_step ts tx post =
    if eqb (completed_requests tx.participants) (length tx.spec.puts)
      && leb_ℤ tx.spec.earliest_commit_ts ts
      && commits tx.spec.action
    then (let (msg, gen) = create_msg_commit tx.actor_id tx.coordinator_actor_id tx.txid post.gen in
        (
          record tx { state = progress_state tx.state },
          record { gen = gen; retrier = (schedule ts msg post.retrier).1 },
        ))
    else (tx, post)

unfoldable pub tick_open : Timestamp → ClientTx → Post → Result (ClientTx × Post)
unfolding next_put_step commit_step
tick_open ts tx post = do tx' ← next_put_step ts tx; ok (commit_step ts tx' post)

unfoldable pub process_reply_commit_sent : Message → ClientTx → Result ClientTx
unfolding progress_state
process_reply_commit_sent msg tx = elim msg.type [
  | msg_rolled_back_by_server ↦ do
    payload ← get_rolled_back msg.payload
    ok (record tx { state = rolled_back_by_server; conflict_txid = payload.conflict_txid })
  | msg_commit_ack ↦ do
    payload ← get_commit_ack msg.payload
    ok (record tx { commit_ts = payload.commit_ts; state = progress_state tx.state })
  | _ ↦ err logic_error
]

unfoldable pub process_replies_commit_sent : Messages → ClientTx → Result ClientTx
unfolding process_reply_commit_sent
process_replies_commit_sent [] tx = ok tx
process_replies_commit_sent (msg ∷ msgs) tx = do
  tx' ← process_reply_commit_sent msg tx
  process_replies_commit_sent msgs tx'

-- The messages of a state that has no use for them are passed over.
unfoldable pub tick_state : Timestamp → Messages → ClientTx → Post → Result (ClientTx × Post)
unfolding tick_not_started tick_start_sent tick_open process_replies_commit_sent
tick_state ts msgs tx post = elim tx.state [
  | not_started ↦ tick_not_started ts msgs tx post
  | start_sent ↦ do tx' ← tick_start_sent tx; ok (tx', post)
  | open_tx ↦ tick_open ts tx post
  | commit_sent ↦ do tx' ← process_replies_commit_sent msgs tx; ok (tx', post)
  | committed ↦ ok (tx, post)
  | rolled_back_by_server ↦ ok (tx, post)
]

-- `scheduled` is the caller's vector.
unfoldable pub tick :
    Timestamp → Messages → Messages → ClientTx → Post → Result (ClientTx × Post × Messages)
unfolding incoming_all requests_all tick_state
tick ts msgs scheduled tx post = do
  ps ← incoming_all ts msgs tx.participants
  (tx', post') ← tick_state ts msgs (record tx { participants = ps }) post
  (ps', post'') ← requests_all ts tx'.participants post'
  let (out, retrier) = get_scheduled_msgs ts scheduled post''.retrier
  ok (record tx' { participants = ps' }, record post'' { retrier = retrier }, out)

pub record ExportResult : Type 0 where
  pub state : ClientTxState
  pub txid : TxId
  pub conflict_txid : TxId
  pub read_ts : Timestamp
  pub commit_ts : Timestamp
  pub gets : List (Key × Value)
  pub puts : List (Key × Value)

unfoldable pub export_puts : Dict ActorId TxParticipant → List (Key × Value) → List (Key × Value)
export_puts [] puts = puts
export_puts ((a, p) ∷ ps) puts = export_puts ps (Participant.export_results p puts)

unfoldable pub export_results : ClientTx → ExportResult
unfolding export_puts
export_results tx = record {
  state = tx.state;
  txid = tx.txid;
  conflict_txid = tx.conflict_txid;
  read_ts = tx.read_ts;
  commit_ts = tx.commit_ts;
  gets = [];
  puts = export_puts tx.participants [];
}

-- ===== src/Tx/ServerTx.antt =====
-- src/tx/server/server_tx.h and server_tx.cpp: one transaction as the server sees it.
pub mod Commit
pub mod Effect
pub mod Faults
use simple_db.Base.{
  Bool, true, false, List, [], ◌∷◌, ◌++◌, Option, none, some, Result, ok, err, assert_failed,
  runtime_error, ◌>>=◌, ◌>>◌, guard, ltb_ℤ, eqb_ℤ, if◌then◌else◌,
}
use simple_db.Tx.Types.{ActorId, TxId, Timestamp, Key, Value, undefined_tx_id, undefined_ts}
use simple_db.Tx.Generator.{Generator}
use simple_db.Tx.Msg.{
  Message, Messages, MessageType, msg_start, msg_put, msg_commit, get_start, get_put,
  create_msg_start_ack, create_msg_put_reply, create_msg_commit_ack,
  create_msg_rolled_back_by_server,
}
use simple_db.Tx.Retrier.{Retrier, send_once, schedule, get_scheduled_msgs}
use simple_db.Tx.Storage.{Storage, TagValue, get_last, apply}

pub data ServerTxState : Type 0 where
  not_started open_tx committed rolled_back_by_server : ServerTxState

pub record DataPut : Type 0 where
  pub key : Key
  pub value : Value

pub record ServerTx : Type 0 where
  pub client_id : ActorId
  pub state : ServerTxState
  pub txid : TxId
  pub read_ts : Timestamp
  pub commit_ts : Timestamp
  pub puts : List DataPut

-- What a transaction reaches outside of itself: the storage and the retrier of its server, and the
-- process's counters.
pub record Env : Type 0 where
  pub gen : Generator
  pub storage : Storage
  pub retrier : Retrier

abbrev pub create : ActorId → ServerTx
create client_id = record {
  client_id = client_id;
  state = not_started;
  txid = undefined_tx_id;
  read_ts = undefined_ts;
  commit_ts = undefined_ts;
  puts = [];
}

-- A message from the generator into the retrier.
abbrev pub reply : (Generator → Message × Generator) → Timestamp → Env → Env
reply make ts env =
    let (msg, gen) = make env.gen in
    record env { gen = gen; retrier = (schedule ts msg env.retrier).1 }

start_tx : Timestamp → Message → ServerTx → Env → Result (ServerTx × Env)
unfolding schedule send_once
start_tx ts msg tx env = do
  guard (eqb_ℤ tx.read_ts undefined_ts) assert_failed
  payload ← get_start msg.payload
  ok (
    record tx { read_ts = ts; txid = payload.txid; state = open_tx },
    reply (create_msg_start_ack msg.destination msg.source payload.txid ts) ts env,
  )

-- A message of another type is only reported.
pub process_msg_not_started : Timestamp → Message → ServerTx → Env → Result (ServerTx × Env)
unfolding start_tx
process_msg_not_started ts msg tx env = elim msg.type [
  | msg_start ↦ start_tx ts msg tx env
  | _ ↦ ok (tx, env)
]

put_open : Timestamp → Message → ServerTx → Env → Result (ServerTx × Env)
unfolding send_once
put_open ts msg tx env = do
  payload ← get_put msg.payload
  let (rep, gen) = create_msg_put_reply msg.destination msg.source tx.txid msg.msg_id env.gen
  ok (
    record tx { puts = tx.puts ++ record { key = payload.key; value = payload.value } ∷ [] },
    record env { gen = gen; retrier = send_once ts rep env.retrier },
  )

-- The test of one entry of `puts_`: the txid that last wrote the key, if that was after the read.
abbrev newer : Timestamp → Option (Timestamp × TagValue) → Option TxId
newer read_ts none = none
newer read_ts (some (ts, tag)) = if ltb_ℤ read_ts ts then some tag.txid else none

-- The loop over `puts_`, which ends at the first conflict.
unfoldable pub find_conflict : Timestamp → List DataPut → Storage → Result (Option TxId)
find_conflict read_ts [] storage = ok none
find_conflict read_ts (p ∷ puts) storage =
    let rest = find_conflict read_ts puts storage in
    get_last p.key storage >>= λ last. elim (newer read_ts last) [
      | some id ↦ ok (some id)
      | none ↦ rest
    ]

unfoldable pub apply_puts : TxId → Timestamp → List DataPut → Storage → Storage
apply_puts txid commit_ts [] storage = storage
apply_puts txid commit_ts (p ∷ puts) storage =
    apply_puts txid commit_ts puts (apply txid commit_ts p.key p.value storage)

-- The end of the commit, after the loop.
settle : Timestamp → Message → ServerTx → Env → Option TxId → ServerTx × Env
settle ts msg tx env (some conflict_txid) = (
  record tx { state = rolled_back_by_server },
  reply (create_msg_rolled_back_by_server msg.destination msg.source tx.txid conflict_txid) ts env,
)
settle ts msg tx env none = (
  record tx { state = committed },
  reply (create_msg_commit_ack msg.destination msg.source tx.txid tx.commit_ts) ts
      (record env { storage = apply_puts tx.txid tx.commit_ts tx.puts env.storage }),
)

commit_open : Timestamp → Message → ServerTx → Env → Result (ServerTx × Env)
unfolding settle
commit_open ts msg tx env = do
  conflict ← find_conflict tx.read_ts tx.puts env.storage
  ok (settle ts msg (record tx { commit_ts = ts }) env conflict)

pub process_msg_open : Timestamp → Message → ServerTx → Env → Result (ServerTx × Env)
unfolding put_open commit_open
process_msg_open ts msg tx env = elim msg.type [
  | msg_put ↦ put_open ts msg tx env
  | msg_commit ↦ commit_open ts msg tx env
  | _ ↦ ok (tx, env)
]

-- The switch of `tick` for one message.
unfoldable pub process_msg : Timestamp → Message → ServerTx → Env → Result (ServerTx × Env)
unfolding process_msg_not_started process_msg_open
process_msg ts msg tx env = elim tx.state [
  | not_started ↦ process_msg_not_started ts msg tx env
  | open_tx ↦ process_msg_open ts msg tx env
  | committed ↦ err runtime_error
  | rolled_back_by_server ↦ err runtime_error
]

unfoldable pub process_msgs : Timestamp → Messages → ServerTx → Env → Result (ServerTx × Env)
process_msgs ts [] tx env = ok (tx, env)
process_msgs ts (msg ∷ msgs) tx env = do
  (tx', env') ← process_msg ts msg tx env
  process_msgs ts msgs tx' env'

-- `scheduled` is the caller's vector.
unfoldable pub tick :
    Timestamp → Messages → Messages → ServerTx → Env → Result (ServerTx × Env × Messages)
unfolding process_msgs
tick ts msgs scheduled tx env = do
  (tx', env') ← process_msgs ts msgs tx env
  let (out, retrier) = get_scheduled_msgs ts scheduled env'.retrier
  ok (tx', record env' { retrier = retrier }, out)

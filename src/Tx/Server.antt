-- ===== src/Tx/Server.antt =====
-- src/tx/server/server.h and server.cpp: the server actor.
pub mod Isolation
pub mod Snapshot
use simple_db.Base.{
  List, [], ◌∷◌, ◌++◌, map, none, some, Result, ok, invalid_argument, ◌>>=◌, ◌>>◌, guard, eqb_ℤ,
  not, int_eq, Dict, find, insert,
}
use simple_db.Tx.Types.{ActorId, TxId, KeyIntervals, undefined_tx_id}
use simple_db.Tx.Generator.{Generator}
use simple_db.Tx.Clock.{Clock, next}
use simple_db.Tx.Msg.{Message, Messages, get_txid_from_msg_payload}
use simple_db.Tx.Retrier.{Retrier}
use simple_db.Tx.Retrier
use simple_db.Tx.Storage.{Storage}
use simple_db.Tx.Storage
use simple_db.Tx.Proxy.{ProxyRuntime, send}
use simple_db.Tx.ServerTx.{ServerTx, create, tick}

abbrev pub Transactions : Type 0
Transactions = Dict TxId ServerTx

pub record Server : Type 0 where
  pub actor_id : ActorId
  pub key_intervals : KeyIntervals
  pub proxy_runtime : ProxyRuntime
  pub storage : Storage
  pub retrier : Retrier
  pub transactions : Transactions

abbrev pub init : ActorId → KeyIntervals → ProxyRuntime → Server
init actor_id key_intervals proxy = record {
  actor_id = actor_id;
  key_intervals = key_intervals;
  proxy_runtime = proxy;
  storage = Storage.init;
  retrier = Retrier.init;
  transactions = [];
}

-- messages_per_tx[txid].push_back(msg)
unfoldable pub push_msg : TxId → Message → Dict TxId Messages → Dict TxId Messages
unfolding find insert
push_msg txid msg d = elim (find txid d) [
  | none ↦ insert txid (msg ∷ []) d
  | some msgs ↦ insert txid (msgs ++ msg ∷ []) d
]

unfoldable pub group_msgs : Messages → Dict TxId Messages → Result (Dict TxId Messages)
unfolding push_msg
group_msgs [] d = ok d
group_msgs (msg ∷ msgs) d = do
  txid ← get_txid_from_msg_payload msg
  guard (not (eqb_ℤ txid undefined_tx_id)) invalid_argument
  group_msgs msgs (push_msg txid msg d)

-- The transaction of an id; a new one is put into `transactions` when it is written back.
unfoldable pub get_or_create_tx : TxId → Server → ServerTx
unfolding find
get_or_create_tx txid s = elim (find txid s.transactions) [
  | none ↦ create s.actor_id
  | some tx ↦ tx
]

-- What the loop over `messages_per_tx` changes.
pub record Progress : Type 0 where
  pub server : Server
  pub clock : Clock
  pub gen : Generator
  pub scheduled : Messages

unfoldable pub tick_tx : TxId → Messages → Progress → Result Progress
unfolding get_or_create_tx
tick_tx txid msgs p = do
  let (ts, clock) = next p.clock
  let s = p.server
  (tx, env, scheduled) ←
      tick ts msgs p.scheduled (get_or_create_tx txid s)
        (record { gen = p.gen; storage = s.storage; retrier = s.retrier })
  ok (record {
    server = record s {
      storage = env.storage;
      retrier = env.retrier;
      transactions = insert txid tx s.transactions;
    };
    clock = clock;
    gen = env.gen;
    scheduled = scheduled;
  })

unfoldable pub tick_txs : List (TxId × Messages) → Progress → Result Progress
tick_txs [] p = ok p
tick_txs ((txid, msgs) ∷ rest) p = do p' ← tick_tx txid msgs p; tick_txs rest p'

-- C++ leaves open in which order a loop meets the entries of an unordered_map: `order` lists them.
-- The result holds the messages that the server hands to the runtime.
unfoldable pub on_tick :
    (Dict TxId Messages → List (TxId × Messages))
    → Messages
    → Server
    → Clock
    → Generator
    → Result (Server × Clock × Generator × Messages)
unfolding group_msgs tick_txs tick_tx
on_tick order msgs s clock gen = do
  messages_per_tx ← group_msgs msgs []
  p ←
      tick_txs (order messages_per_tx)
        (record { server = s; clock = clock; gen = gen; scheduled = [] })
  ok (p.server, p.clock, p.gen, map (send s.proxy_runtime) p.scheduled)

-- ===== src/Tx/Client.antt =====
-- src/tx/client/client.h and client.cpp: the client actor.
pub mod Spec
pub mod Requests
pub mod Participant
pub mod Transaction
pub mod Print
use simple_db.Base.{
  ℕ, Bool, true, List, [], ◌∷◌, ◌++◌, map, Option, none, some, Result, ok, err, ◌>>=◌, eqb_ℤ,
  if◌then◌else◌, int_eq, Dict, find, insert, get_elem?,
}
use simple_db.Tx.Types.{ActorId, TxId, undefined_tx_id}
use simple_db.Tx.Generator.{Generator}
use simple_db.Tx.Clock.{Clock, next}
use simple_db.Tx.Discovery.{Discovery}
use simple_db.Tx.Msg.{Message, Messages, get_txid_from_msg_payload}
use simple_db.Tx.Retrier.{Retrier}
use simple_db.Tx.Retrier
use simple_db.Tx.Proxy.{ProxyRuntime, send}
use Spec.{TxSpec}
use Requests.{Post}
use Transaction.{ClientTx, create, tick}

-- The retrier is shared by the transactions.
pub record Client : Type 0 where
  pub actor_id : ActorId
  pub discovery : Discovery
  pub proxy : ProxyRuntime
  pub retrier : Retrier
  pub transactions : List ClientTx

abbrev pub init : ActorId → List TxSpec → Discovery → ProxyRuntime → Client
init actor_id specs discovery proxy = record {
  actor_id = actor_id;
  discovery = discovery;
  proxy = proxy;
  retrier = Retrier.init;
  transactions = map (λ spec. create actor_id spec discovery) specs;
}

unfoldable pub get_tx : ℕ → Client → Option ClientTx
get_tx index c = get_elem? c.transactions index

-- messages_per_tx[txid].push_back(msg)
unfoldable pub push_msg : TxId → Message → Dict TxId Messages → Dict TxId Messages
unfolding find insert
push_msg txid msg d = elim (find txid d) [
  | none ↦ insert txid (msg ∷ []) d
  | some msgs ↦ insert txid (msgs ++ msg ∷ []) d
]

-- A message with no txid is dropped.
unfoldable pub group_msgs : Messages → Dict TxId Messages → Result (Dict TxId Messages)
unfolding push_msg
group_msgs [] d = ok d
group_msgs (msg ∷ msgs) d = do
  txid ← get_txid_from_msg_payload msg
  group_msgs msgs (if eqb_ℤ txid undefined_tx_id then d else push_msg txid msg d)

-- The messages of a transaction, moved out of the map.
unfoldable pub take_msgs : TxId → Dict TxId Messages → Messages × Dict TxId Messages
unfolding find insert
take_msgs txid d =
    if eqb_ℤ txid undefined_tx_id
    then ([], d)
    else elim (find txid d) [ none ↦ ([], d) | some msgs ↦ (msgs, insert txid [] d) ]

-- The loop over the transactions; `scheduled` is the vector that they add to.
unfoldable pub tick_all :
    List ClientTx
    → Dict TxId Messages
    → Clock
    → Post
    → Messages
    → Result (List ClientTx × Clock × Post × Messages)
unfolding take_msgs
tick_all [] d clock post scheduled = ok ([], clock, post, scheduled)
tick_all (tx ∷ txs) d clock post scheduled = do
  let (msgs, d') = take_msgs tx.txid d
  let (ts, clock') = next clock
  (tx', post', scheduled') ← tick ts msgs scheduled tx post
  (txs', clock'', post'', scheduled'') ← tick_all txs d' clock' post' scheduled'
  ok (tx' ∷ txs', clock'', post'', scheduled'')

-- The result holds the messages that the client hands to the runtime.
unfoldable pub on_tick :
    Messages → Client → Clock → Generator → Result (Client × Clock × Generator × Messages)
unfolding group_msgs tick_all
on_tick msgs c clock gen = do
  messages_per_tx ← group_msgs msgs []
  (txs, clock', post, scheduled) ←
      tick_all c.transactions messages_per_tx clock (record { gen = gen; retrier = c.retrier }) []
  ok (
    record c { retrier = post.retrier; transactions = txs },
    clock',
    post.gen,
    map (send c.proxy) scheduled,
  )

-- ===== src/Tx/Server/Snapshot.antt =====
-- The isolation of transactions over whole runs of the server actor.
use simple_db.Base.{
  ◌≡◌, ◌≢◌, inl, inr, List, [], ◌∷◌, some, true, ok, >>=-eq-ok, arith, int_eq, Dict, find, insert,
  find-insert, Option-cases, eqb_ℤ_iff,
}
use simple_db.Tx.Types.{ActorId, TxId, Timestamp, Key, KeyIntervals}
use simple_db.Tx.Generator.{Generator}
use simple_db.Tx.Clock.{Clock, next}
use simple_db.Tx.Msg.{Messages}
use simple_db.Tx.Storage.Last
use simple_db.Tx.Proxy.{ProxyRuntime}
use simple_db.Tx.ServerTx.{ServerTx, Env, committed, process_msg, process_msgs, tick}
use simple_db.Tx.ServerTx.Commit.{writes}
use simple_db.Tx.ServerTx.Effect.{process_msg-Effect}
use simple_db.Tx.Server.{
  Server, init, get_or_create_tx, Progress, group_msgs, tick_tx, tick_txs, on_tick,
}
use simple_db.Tx.Server.Isolation.{
  Lookup, assign, Apart, Isolated, Isolated-ext, assign-Isolated_new, Effect-Isolated,
}

process_msgs-Isolated :
    (look : Lookup) (id : TxId) (ts : Timestamp) (msgs : Messages) (tx : ServerTx) (env : Env)
    (tx' : ServerTx) (env' : Env)
    → process_msgs ts msgs tx env ≡ ok (tx', env')
    → Isolated (assign look id tx) env.storage
    → Isolated (assign look id tx') env'.storage
unfolding process_msgs
process_msgs-Isolated look id ts [] tx env tx' env' e inv =
    let same_tx : tx' ≡ tx = ground arith in
    let same_env : env' ≡ env = ground arith in rw (same_tx, same_env) inv
process_msgs-Isolated look id ts (msg ∷ msgs) tx env tx' env' e inv =
    let (mid, first, rest) =
      >>=-eq-ok (process_msg ts msg tx env) (λ r. process_msgs ts msgs r.0 r.1) e in
    process_msgs-Isolated look id ts msgs mid.0 mid.1 tx' env' rest (
      Effect-Isolated look id ts msg tx mid.0 env.storage mid.1.storage
        (process_msg-Effect ts msg tx env mid.0 mid.1 first) inv)

tick-Isolated :
    (look : Lookup) (id : TxId) (ts : Timestamp) (msgs scheduled : Messages) (tx : ServerTx)
    (env : Env) (r : ServerTx × Env × Messages)
    → tick ts msgs scheduled tx env ≡ ok r
    → Isolated (assign look id tx) env.storage
    → Isolated (assign look id r.0) r.1.storage
unfolding tick
tick-Isolated look id ts msgs scheduled tx env r e inv =
    let (mid, ran, rest) = >>=-eq-ok (process_msgs ts msgs tx env) _ e in
    let same_tx : r.0 ≡ mid.0 = ground arith in
    let same_storage : r.1.storage ≡ mid.1.storage = ground arith in
    rw (same_tx, same_storage) (process_msgs-Isolated look id ts msgs tx env mid.0 mid.1 ran inv)

abbrev pub lookup_of : Server → Lookup
lookup_of s j = find j s.transactions

abbrev pub IsIsolated : Server → Type 0
IsIsolated s = Isolated (lookup_of s) s.storage

-- A transaction that is made for a first message changes nothing.
assign-get_or_create_tx :
    (txid : TxId) (s : Server)
    → IsIsolated s
    → Isolated (assign (lookup_of s) txid (get_or_create_tx txid s)) s.storage
unfolding get_or_create_tx
assign-get_or_create_tx txid s inv = elim (Option-cases (find txid s.transactions)) [
  | inl new ↦ assign-Isolated_new (lookup_of s) txid _ s.storage (ground arith) inv
  | inr (tx, old) ↦ Isolated-ext (λ j. ground (arith, eqb_ℤ_iff j txid)) inv
]

tick_tx-Isolated :
    (txid : TxId) (msgs : Messages) (p q : Progress)
    → tick_tx txid msgs p ≡ ok q
    → IsIsolated p.server
    → IsIsolated q.server
unfolding tick_tx
tick_tx-Isolated txid msgs p q e inv =
    let s = p.server in
    let tx = get_or_create_tx txid s in
    let env : Env = record { gen = p.gen; storage = s.storage; retrier = s.retrier } in
    let (r, ticked, rest) = >>=-eq-ok (tick (next p.clock).0 msgs p.scheduled tx env) _ e in
    let same_txs : q.server.transactions ≡ insert txid r.0 s.transactions = ground arith in
    let same_storage : q.server.storage ≡ r.1.storage = ground arith in
    rw same_storage (
      Isolated-ext (λ j. rw (same_txs, find-insert j txid r.0 s.transactions))
        (tick-Isolated (lookup_of s) txid (next p.clock).0 msgs p.scheduled tx env r ticked
          (assign-get_or_create_tx txid s inv)))

tick_txs-Isolated :
    (work : List (TxId × Messages)) (p q : Progress)
    → tick_txs work p ≡ ok q
    → IsIsolated p.server
    → IsIsolated q.server
unfolding tick_txs
tick_txs-Isolated [] p q e inv = let same : q ≡ p = ground arith in rw same inv
tick_txs-Isolated ((txid, msgs) ∷ work) p q e inv =
    let (mid, first, rest) = >>=-eq-ok (tick_tx txid msgs p) (tick_txs work) e in
    tick_txs-Isolated work mid q rest (tick_tx-Isolated txid msgs p mid first inv)

-- The order in which a tick meets its transactions.
abbrev pub Order : Type 0
Order = Dict TxId Messages → List (TxId × Messages)

on_tick-Isolated :
    (order : Order) (msgs : Messages) (s : Server) (clock : Clock) (gen : Generator)
    (r : Server × Clock × Generator × Messages)
    → on_tick order msgs s clock gen ≡ ok r
    → IsIsolated s
    → IsIsolated r.0
unfolding on_tick
on_tick-Isolated order msgs s clock gen r e inv =
    let (groups, grouped, rest) = >>=-eq-ok (group_msgs msgs []) _ e in
    let start : Progress = record { server = s; clock = clock; gen = gen; scheduled = [] } in
    let (p, ran, done) = >>=-eq-ok (tick_txs (order groups) start) _ rest in
    let same : r.0 ≡ p.server = ground arith in
    rw same (tick_txs-Isolated (order groups) start p ran inv)

-- The states of a server: each tick brings any messages, at any clock, and goes through its
-- transactions in any order.
pub data Reach (a : ActorId) (ks : KeyIntervals) (proxy : ProxyRuntime) : Server → Type 0 where
  boot : Reach a ks proxy (init a ks proxy)
  ticked :
      {s : Server} (order : Order) (msgs : Messages) (clock : Clock) (gen : Generator)
      (r : Server × Clock × Generator × Messages)
      → Reach a ks proxy s
      → on_tick order msgs s clock gen ≡ ok r
      → Reach a ks proxy r.0

init-IsIsolated :
    (a : ActorId) (ks : KeyIntervals) (proxy : ProxyRuntime) → IsIsolated (init a ks proxy)
unfolding find
init-IsIsolated a ks proxy = record {
  valid = Last.init-IsValid;
  written = λ j c k m w. cc m.0;
  apart = λ i j x y k ne ma mb wa wb. cc ma.0;
}

pub Reach-IsIsolated :
    {a : ActorId} {ks : KeyIntervals} {proxy : ProxyRuntime} {s : Server}
    → Reach a ks proxy s
    → IsIsolated s
Reach-IsIsolated {a} {ks} {proxy} boot = init-IsIsolated a ks proxy
Reach-IsIsolated (ticked {s} order msgs clock gen r before e) =
    on_tick-Isolated order msgs s clock gen r e (Reach-IsIsolated before)

-- In every state of a server that its ticks reach, two different transactions that have committed
-- and have both put to some key do not overlap: one of them committed no later than the other read.
pub committed-Apart :
    (a : ActorId) (ks : KeyIntervals) (proxy : ProxyRuntime) (s : Server) (i j : TxId)
    (x y : ServerTx) (k : Key)
    → Reach a ks proxy s
    → i ≢ j
    → find i s.transactions ≡ some x
    → find j s.transactions ≡ some y
    → x.state ≡ committed
    → y.state ≡ committed
    → writes k x.puts ≡ true
    → writes k y.puts ≡ true
    → Apart x y
committed-Apart a ks proxy s i j x y k run ne fx fy sx sy wx wy =
    (Reach-IsIsolated run).apart i j x y k ne (fx, sx) (fy, sy) wx wy

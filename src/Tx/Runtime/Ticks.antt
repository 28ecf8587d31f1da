-- ===== src/Tx/Runtime/Ticks.antt =====
-- The ticks of the actors, Client::on_tick and Server::on_tick, on the clock.
use simple_db.Base.{
  ◌≡◌, false, List, [], ◌∷◌, ok, >>=-eq-ok, arith, eqb_ℤ, ◌≤ℤ◌, ◌<ℤ◌, lt-suc_ℤ, int_eq, Dict,
}
use simple_db.Tx.Types.{Timestamp, TxId}
use simple_db.Tx.Clock.{Clock, current, next}
use simple_db.Tx.Generator.{Generator}
use simple_db.Tx.Msg.{Messages}
use simple_db.Tx.ServerTx.{Env, tick}
use simple_db.Tx.Server.{Server, Progress, tick_tx, tick_txs, get_or_create_tx}
use simple_db.Tx.Server
use simple_db.Tx.Client.{Client, tick_all, take_msgs}
use simple_db.Tx.Client
use simple_db.Tx.Client.Transaction.{ClientTx}
use simple_db.Tx.Client.Transaction
use simple_db.Tx.Client.Requests.{Post}
use simple_db.Tx.Runtime.{Actor, client, server, on_tick}

pub ≤ℤ_trans : (a b c : Timestamp) → a ≤ℤ b → b ≤ℤ c → a ≤ℤ c
≤ℤ_trans a b c h h' = omega arith

pub next_le : (c : Clock) → current c ≤ℤ current (next c).1
unfolding current next
next_le c = let h = lt-suc_ℤ c.tm in omega arith

pub next_lt : (c : Clock) → current c <ℤ current (next c).1
unfolding current next
next_lt c = lt-suc_ℤ c.tm

pub <ℤ_trans : (a b c : Timestamp) → a ≤ℤ b → b <ℤ c → a <ℤ c
<ℤ_trans a b c h h' = omega arith

pub <ℤ_of_ne : (a b : Timestamp) → a ≤ℤ b → eqb_ℤ b a ≡ false → a <ℤ b
<ℤ_of_ne a b h ne = ground arith

-- The ticks of the actors only put the clock forward.
pub tick_tx-le :
    (txid : TxId) (msgs : Messages) (p q : Progress)
    → tick_tx txid msgs p ≡ ok q
    → current p.clock ≤ℤ current q.clock
unfolding tick_tx
tick_tx-le txid msgs p q e =
    let s = p.server in
    let env : Env = record { gen = p.gen; storage = s.storage; retrier = s.retrier } in
    let (r, ticked, rest) =
      >>=-eq-ok (tick (next p.clock).0 msgs p.scheduled (get_or_create_tx txid s) env) _ e in
    let same : q.clock ≡ (next p.clock).1 = ground arith in rw same (next_le p.clock)

pub tick_txs-le :
    (work : List (TxId × Messages)) (p q : Progress)
    → tick_txs work p ≡ ok q
    → current p.clock ≤ℤ current q.clock
unfolding tick_txs
tick_txs-le [] p q e = let same : q ≡ p = ground arith in rw same (omega arith)
tick_txs-le ((txid, msgs) ∷ work) p q e =
    let (mid, first, rest) = >>=-eq-ok (tick_tx txid msgs p) (tick_txs work) e in
    ≤ℤ_trans (current p.clock) (current mid.clock) (current q.clock)
      (tick_tx-le txid msgs p mid first) (tick_txs-le work mid q rest)

pub tick_all-le :
    (txs : List ClientTx) (d : Dict TxId Messages) (clock : Clock) (post : Post)
    (scheduled : Messages) (r : List ClientTx × Clock × Post × Messages)
    → tick_all txs d clock post scheduled ≡ ok r
    → current clock ≤ℤ current r.1
unfolding tick_all
tick_all-le [] d clock post scheduled r e =
    let same : r.1 ≡ clock = ground arith in rw same (omega arith)
tick_all-le (tx ∷ txs) d clock post scheduled r e =
    let (msgs, d') = take_msgs tx.txid d in
    let (a, first, e') = >>=-eq-ok (Transaction.tick (next clock).0 msgs scheduled tx post) _ e in
    let (b, second, e'') = >>=-eq-ok (tick_all txs d' (next clock).1 a.1 a.2) _ e' in
    let same : r.1 ≡ b.1 = ground arith in
    rw same (
      ≤ℤ_trans (current clock) (current (next clock).1) (current b.1) (next_le clock)
        (tick_all-le txs d' (next clock).1 a.1 a.2 b second))

module _ (order : Dict TxId Messages → List (TxId × Messages)) where
  pub on_tick-le :
      (msgs : Messages) (actor : Actor) (clock : Clock) (gen : Generator)
      (r : Actor × Clock × Generator × Messages)
      → on_tick order msgs actor clock gen ≡ ok r
      → current clock ≤ℤ current r.1
  unfolding on_tick Client.on_tick Server.on_tick
  on_tick-le msgs (client c) clock gen r e =
      let post : Post = record { gen = gen; retrier = c.retrier } in
      let (a, first, e') = >>=-eq-ok (Client.on_tick msgs c clock gen) _ e in
      let (groups, grouped, rest) = >>=-eq-ok (Client.group_msgs msgs []) _ first in
      let (b, ticked, rest') = >>=-eq-ok (tick_all c.transactions groups clock post []) _ rest in
      let same : r.1 ≡ b.1 = ground arith in
      rw same (tick_all-le c.transactions groups clock post [] b ticked)
  on_tick-le msgs (server s) clock gen r e =
      let start : Progress = record { server = s; clock = clock; gen = gen; scheduled = [] } in
      let (a, first, e') = >>=-eq-ok (Server.on_tick order msgs s clock gen) _ e in
      let (groups, grouped, rest) = >>=-eq-ok (Server.group_msgs msgs []) _ first in
      let (p, ticked, rest') = >>=-eq-ok (tick_txs (order groups) start) _ rest in
      let same : r.1 ≡ p.clock = ground arith in rw same (tick_txs-le (order groups) start p ticked)

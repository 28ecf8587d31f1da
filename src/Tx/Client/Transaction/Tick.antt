-- ===== src/Tx/Client/Transaction/Tick.antt =====
-- The whole tick of a client's transaction.
use simple_db.Base.{
  ℕ, zero, suc, ◌≡◌, refl, ap, ◌∙◌, [], ◌∷◌, ok, or_fail, out_of_range, >>=-eq-ok, arith, length,
  get_elem?, Dict, ◌-◌,
}
use simple_db.Tx.Types.{ActorId, TxId, Timestamp}
use simple_db.Tx.Msg.{Messages}
use simple_db.Tx.Client.Requests.{RequestsManager, Post, prepare_one, prepare_rounds, prepare_msg}
use simple_db.Tx.Client.Participant.{
  TxParticipant, TxParticipantState, schedule_requests, completed_puts,
}
use simple_db.Tx.Client.Participant
use simple_db.Tx.Client.Transaction.{
  ClientTx, incoming_all, requests_all, completed_requests, tick_state, tick,
}
use simple_db.Tx.Client.Transaction.Progress.{
  Advance, stays, starts, opens, sends_commit, ends, tick_state-Advance,
}

module _ (client coordinator : ActorId) (txid : TxId) (ts : Timestamp) where
  prepare_one-completed :
      (m : RequestsManager) (post : Post) (q : RequestsManager × Post)
      → prepare_one client coordinator txid ts m post ≡ ok q
      → q.0.completed_puts ≡ m.completed_puts
  unfolding prepare_one
  prepare_one-completed m post q e =
      let (r, found, rest) =
        >>=-eq-ok (or_fail (get_elem? m.puts_table_status m.next_put) out_of_range) _ e in
      ground arith

  prepare_rounds-completed :
      (n : ℕ) (m : RequestsManager) (post : Post) (q : RequestsManager × Post)
      → prepare_rounds n client coordinator txid ts m post ≡ ok q
      → q.0.completed_puts ≡ m.completed_puts
  unfolding prepare_rounds
  prepare_rounds-completed zero m post q e = ground arith
  prepare_rounds-completed (suc n) m post q e =
      let (mid, first, rest) =
        >>=-eq-ok (prepare_one client coordinator txid ts m post)
          (λ r. prepare_rounds n client coordinator txid ts r.0 r.1) e in
      prepare_rounds-completed n mid.0 mid.1 q rest ∙ prepare_one-completed m post mid first

send_requests-completed :
    (ts : Timestamp) (p : TxParticipant) (post : Post) (q : TxParticipant × Post)
    → Participant.send_requests ts p post ≡ ok q
    → completed_puts q.0 ≡ completed_puts p
unfolding prepare_msg completed_puts
send_requests-completed ts p post q e =
    let m = p.req_manager in
    let n = length m.puts_table_status - m.next_put in
    let (r, ran, rest) =
      >>=-eq-ok (prepare_rounds n p.client_tx_actor_id p.coordinator_actor_id p.txid ts m post) _
        e in
    ground (
      arith,
      prepare_rounds-completed p.client_tx_actor_id p.coordinator_actor_id p.txid ts n m post r ran,
    )

schedule_requests-completed :
    (ts : Timestamp) (p : TxParticipant) (post : Post) (q : TxParticipant × Post)
    (state : TxParticipantState)
    → p.state ≡ state
    → schedule_requests ts p post ≡ ok q
    → completed_puts q.0 ≡ completed_puts p
unfolding schedule_requests
schedule_requests-completed ts p post q TxParticipantState.tx_open st e =
    send_requests-completed ts p post q (ground arith)
schedule_requests-completed ts p post q _ st e =
    let same : q.0 ≡ p = ground arith in ap completed_puts same

-- Sending completes nothing.
requests_all-completed :
    (ts : Timestamp) (ps : Dict ActorId TxParticipant) (post : Post)
    (q : Dict ActorId TxParticipant × Post)
    → requests_all ts ps post ≡ ok q
    → completed_requests q.0 ≡ completed_requests ps
unfolding requests_all completed_requests
requests_all-completed ts [] post q e =
    let same : q.0 ≡ [] = ground arith in rw (same, completed_requests)
requests_all-completed ts ((a, p) ∷ ps) post q e =
    let (r, first, e₁) = >>=-eq-ok (schedule_requests ts p post) _ e in
    let (r', rest, e₂) = >>=-eq-ok (requests_all ts ps r.1) _ e₁ in
    let same : q.0 ≡ (a, r.0) ∷ r'.0 = ground arith in
    rw (same, completed_requests)
      (omega (
        arith,
        schedule_requests-completed ts p post r p.state refl first,
        requests_all-completed ts ps r.1 r' rest,
      ))

-- A tick that ends without a fault leaves the transaction in its state or moves it on, under these
-- conditions: a start needs the earliest start time of the spec, an open transaction has a read
-- timestamp, the commit is sent only by a spec that commits, not before its earliest time and with
-- as many puts completed as the spec has, and a transaction ends only after the commit was sent.
-- The read timestamp changes only when the transaction opens.
pub tick-Advance :
    (ts : Timestamp) (msgs scheduled : Messages) (tx : ClientTx) (post : Post)
    (r : ClientTx × Post × Messages)
    → tick ts msgs scheduled tx post ≡ ok r
    → Advance ts tx r.0
unfolding tick
tick-Advance ts msgs scheduled tx post r e =
    let (ps, came, e₁) = >>=-eq-ok (incoming_all ts msgs tx.participants) _ e in
    let tx₁ : ClientTx = record tx { participants = ps } in
    let (mid, ran, e₂) = >>=-eq-ok (tick_state ts msgs tx₁ post) _ e₁ in
    let (out, sent, e₃) = >>=-eq-ok (requests_all ts mid.0.participants mid.1) _ e₂ in
    let same : r.0 ≡ record mid.0 { participants = out.0 } = ground arith in
    rw same (
      go ps mid out (tick_state-Advance ts msgs tx₁ post mid tx.state refl ran)
        (requests_all-completed ts mid.0.participants mid.1 out sent))
  where
    go :
        (ps : Dict ActorId TxParticipant) (mid : ClientTx × Post)
        (out : Dict ActorId TxParticipant × Post)
        → Advance ts (record tx { participants = ps }) mid.0
        → completed_requests out.0 ≡ completed_requests mid.0.participants
        → Advance ts tx (record mid.0 { participants = out.0 })
    go ps mid out (stays s t) c = stays s t
    go ps mid out (starts s t u v) c = starts s t u v
    go ps mid out (opens s t u) c = opens s t u
    go ps mid out (sends_commit s t u v w x) c = sends_commit s t u v (c ∙ w) x
    go ps mid out (ends s t u) c = ends s t u

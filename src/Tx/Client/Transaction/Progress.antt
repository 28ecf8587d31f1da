-- ===== src/Tx/Client/Transaction/Progress.antt =====
-- How the state of a client's transaction moves, and on what conditions.
use simple_db.Base.{
  ◌≡◌, ◌≢◌, refl, ap, ◌∙◌, ◌⊎◌, inl, inr, ◌&&◌, [], ◌∷◌, ok, guard, assert_failed, or_fail,
  out_of_range, null_pointer, ◌>>=◌, >>=-eq-ok, arith, length, ◌≤ℤ◌, leb_ℤ, eqb, eqb_ℤ_iff, int_eq,
  find, Bool-cases, Option-cases,
}
use simple_db.Tx.Types.{Timestamp, undefined_ts}
use simple_db.Tx.Discovery.{get_by_key, get_random}
use simple_db.Tx.Msg.{Message, Messages, MessageType, msg_rolled_back_by_server, msg_commit_ack}
use simple_db.Tx.Client.Spec.{ClientTxPut, Action}
use simple_db.Tx.Client.Requests.{Post}
use simple_db.Tx.Client.Participant.{
  TxParticipant, schedule_start_msg, checked_read_ts, checked_txid, schedule_requests,
  completed_puts, is_open,
}
use simple_db.Tx.Client.Participant
use simple_db.Tx.Client.Transaction.{
  ClientTx, ClientTxState, not_started, start_sent, open_tx, commit_sent, committed,
  rolled_back_by_server, progress_state, completed_requests, configure_coordinator,
  configure_read_ts, tick_not_started, tick_start_sent, next_put_step, give_put, begin_tx,
  commit_step, tick_open, process_reply_commit_sent, process_replies_commit_sent, tick_state,
  due_put, commits,
}

-- The step of a transaction in a tick at the time `ts`.
pub data Advance (ts : Timestamp) (tx tx' : ClientTx) : Type 0 where
  stays : tx'.state ≡ tx.state → tx'.read_ts ≡ tx.read_ts → Advance ts tx tx'
  starts :
      tx.state ≡ not_started
      → tx'.state ≡ start_sent
      → tx.spec.earliest_start_ts ≤ℤ ts
      → tx'.read_ts ≡ tx.read_ts
      → Advance ts tx tx'
  opens :
      tx.state ≡ start_sent → tx'.state ≡ open_tx → tx'.read_ts ≢ undefined_ts → Advance ts tx tx'
  sends_commit :
      tx.state ≡ open_tx
      → tx'.state ≡ commit_sent
      → tx.spec.action ≡ Action.commit
      → tx.spec.earliest_commit_ts ≤ℤ ts
      → completed_requests tx'.participants ≡ length tx.spec.puts
      → tx'.read_ts ≡ tx.read_ts
      → Advance ts tx tx'
  ends :
      tx.state ≡ commit_sent
      → (tx'.state ≡ committed) ⊎ (tx'.state ≡ rolled_back_by_server)
      → tx'.read_ts ≡ tx.read_ts
      → Advance ts tx tx'

configure_coordinator-kept :
    (ts : Timestamp) (tx : ClientTx) (post : Post) (q : ClientTx × Post)
    → configure_coordinator ts tx post ≡ ok q
    → (q.0.state ≡ tx.state) × (q.0.read_ts ≡ tx.read_ts)
unfolding configure_coordinator
configure_coordinator-kept ts tx post q e =
    let (c, a, e₁) = >>=-eq-ok (get_random tx.discovery) _ e in
    let (p, b, e₂) =
      >>=-eq-ok (schedule_start_msg ts (Participant.create tx.actor_id c) post) _ e₁ in
    let (id, d, e₃) = >>=-eq-ok (checked_txid p.0) _ e₂ in (ground arith, ground arith)

give_put-kept :
    (put : ClientTxPut) (tx tx' : ClientTx)
    → give_put put tx ≡ ok tx'
    → (tx'.state ≡ tx.state) × (tx'.spec ≡ tx.spec) × (tx'.read_ts ≡ tx.read_ts)
unfolding give_put
give_put-kept put tx tx' e =
    let (a, g, e₁) = >>=-eq-ok (get_by_key put.key tx.discovery) _ e in
    let (p, h, e₂) = >>=-eq-ok (or_fail (find a tx.participants) null_pointer) _ e₁ in
    (ground arith, ground arith, ground arith)

next_put_step-kept :
    (ts : Timestamp) (tx tx' : ClientTx)
    → next_put_step ts tx ≡ ok tx'
    → (tx'.state ≡ tx.state) × (tx'.spec ≡ tx.spec) × (tx'.read_ts ≡ tx.read_ts)
unfolding next_put_step
next_put_step-kept ts tx tx' e = elim (Option-cases (due_put ts tx)) [
  | inl idle ↦ ground arith
  | inr (put, due) ↦ give_put-kept put tx tx' (ground arith)
]

begin_tx-kept :
    (ts : Timestamp) (tx : ClientTx) (post : Post) (q : ClientTx × Post)
    → begin_tx ts tx post ≡ ok q
    → (q.0.state ≡ progress_state tx.state) × (q.0.read_ts ≡ tx.read_ts)
unfolding begin_tx
begin_tx-kept ts tx post q e =
    let (r, configured, done) = >>=-eq-ok (configure_coordinator ts tx post) _ e in
    ground (arith, configure_coordinator-kept ts tx post r configured)

abbrev pub IsEnd : ClientTxState → Type 0
IsEnd s = (s ≡ committed) ⊎ (s ≡ rolled_back_by_server)

process_reply-IsEnd :
    (type : MessageType) (msg : Message) (tx tx' : ClientTx)
    → msg.type ≡ type
    → (tx.state ≡ commit_sent) ⊎ IsEnd tx.state
    → process_reply_commit_sent msg tx ≡ ok tx'
    → IsEnd tx'.state × (tx'.read_ts ≡ tx.read_ts)
unfolding process_reply_commit_sent
process_reply-IsEnd msg_rolled_back_by_server msg tx tx' t st e = (inr (ground arith), ground arith)
process_reply-IsEnd msg_commit_ack msg tx tx' t st e = (inl (ground arith), ground arith)
process_reply-IsEnd _ msg tx tx' t st e = cc

module _ (ts : Timestamp) (msgs : Messages) (tx : ClientTx) (post : Post)
    (q : ClientTx × Post) where
  tick_start_sent-Advance : tx.state ≡ start_sent → tick_start_sent tx ≡ ok q.0 → Advance ts tx q.0
  unfolding tick_start_sent configure_read_ts checked_read_ts
  tick_start_sent-Advance st e =
      let (p, found, rest) =
        >>=-eq-ok (or_fail (find tx.coordinator_actor_id tx.participants) out_of_range) _ e in
      elim (Bool-cases (is_open p)) [
        | inl open' ↦ opens st (ground arith) (ground (arith, eqb_ℤ_iff p.read_ts undefined_ts))
        | inr shut ↦ stays (ground arith) (ground arith)
      ]

  tick_not_started-Advance :
      tx.state ≡ not_started → tick_not_started ts msgs tx post ≡ ok q → Advance ts tx q.0
  unfolding tick_not_started progress_state
  tick_not_started-Advance st e =
      let (u, empty, rest) = >>=-eq-ok (guard (eqb (length msgs) 0) assert_failed) _ e in
      elim (Bool-cases (leb_ℤ tx.spec.earliest_start_ts ts)) [
        | inl due ↦
            let (state, read) = begin_tx-kept ts tx post q (ground arith) in
            starts st (state ∙ ap progress_state st) (ground arith) read
        | inr early ↦ stays (ground arith) (ground arith)
      ]

  commit_step-Advance :
      (tx' : ClientTx)
      → tx.state ≡ open_tx
      → (tx'.state ≡ tx.state) × (tx'.spec ≡ tx.spec) × (tx'.read_ts ≡ tx.read_ts)
      → commit_step ts tx' post ≡ q
      → Advance ts tx q.0
  unfolding commit_step progress_state
  commit_step-Advance tx' st kept e =
      elim (Bool-cases (
        eqb (completed_requests tx'.participants) (length tx'.spec.puts)
        && leb_ℤ tx'.spec.earliest_commit_ts ts
        && commits tx'.spec.action)) [
          | inl ready ↦
              sends_commit st (ground arith) (ground arith) (ground arith) (ground arith)
                (ground arith)
          | inr wait ↦ stays (ground arith) (ground arith)
        ]

  tick_open-Advance : tx.state ≡ open_tx → tick_open ts tx post ≡ ok q → Advance ts tx q.0
  unfolding tick_open
  tick_open-Advance st e =
      let (tx', stepped, done) = >>=-eq-ok (next_put_step ts tx) _ e in
      commit_step-Advance tx' st (next_put_step-kept ts tx tx' stepped) (ground arith)

replies-IsEnd :
    (msgs : Messages) (tx tx' : ClientTx)
    → IsEnd tx.state
    → process_replies_commit_sent msgs tx ≡ ok tx'
    → IsEnd tx'.state × (tx'.read_ts ≡ tx.read_ts)
unfolding process_replies_commit_sent
replies-IsEnd [] tx tx' st e = let same : tx' ≡ tx = ground arith in (rw same st, rw same)
replies-IsEnd (msg ∷ msgs) tx tx' st e =
    let (mid, first, rest) =
      >>=-eq-ok (process_reply_commit_sent msg tx) (process_replies_commit_sent msgs) e in
    let (done, read) = process_reply-IsEnd msg.type msg tx mid refl (inr st) first in
    let (done', read') = replies-IsEnd msgs mid tx' done rest in (done', read' ∙ read)

commit_sent-Advance :
    (ts : Timestamp) (msgs : Messages) (tx tx' : ClientTx)
    → tx.state ≡ commit_sent
    → process_replies_commit_sent msgs tx ≡ ok tx'
    → Advance ts tx tx'
unfolding process_replies_commit_sent
commit_sent-Advance ts [] tx tx' st e =
    let same : tx' ≡ tx = ground arith in
    stays (ap (λ (t : ClientTx). t.state) same) (ap (λ (t : ClientTx). t.read_ts) same)
commit_sent-Advance ts (msg ∷ msgs) tx tx' st e =
    let (mid, first, rest) =
      >>=-eq-ok (process_reply_commit_sent msg tx) (process_replies_commit_sent msgs) e in
    let (done, read) = process_reply-IsEnd msg.type msg tx mid refl (inl st) first in
    let (done', read') = replies-IsEnd msgs mid tx' done rest in ends st done' (read' ∙ read)

pub tick_state-Advance :
    (ts : Timestamp) (msgs : Messages) (tx : ClientTx) (post : Post) (q : ClientTx × Post)
    (state : ClientTxState)
    → tx.state ≡ state
    → tick_state ts msgs tx post ≡ ok q
    → Advance ts tx q.0
unfolding tick_state
tick_state-Advance ts msgs tx post q not_started st e =
    tick_not_started-Advance ts msgs tx post q st (ground arith)
tick_state-Advance ts msgs tx post q start_sent st e =
    let (tx', ran, done) = >>=-eq-ok (tick_start_sent tx) (λ t. ok (t, post)) (started st e) in
    tick_start_sent-Advance ts msgs tx post q st (ground arith)
  where
    started :
        tx.state ≡ start_sent
        → tick_state ts msgs tx post ≡ ok q
        → (tick_start_sent tx >>= λ t. ok (t, post)) ≡ ok q
    started st e = ground arith
tick_state-Advance ts msgs tx post q open_tx st e =
    tick_open-Advance ts msgs tx post q st (ground arith)
tick_state-Advance ts msgs tx post q commit_sent st e =
    let (tx', ran, done) =
      >>=-eq-ok (process_replies_commit_sent msgs tx) (λ t. ok (t, post)) (replied st e) in
    commit_sent-Advance ts msgs tx q.0 st (ground arith)
  where
    replied :
        tx.state ≡ commit_sent
        → tick_state ts msgs tx post ≡ ok q
        → (process_replies_commit_sent msgs tx >>= λ t. ok (t, post)) ≡ ok q
    replied st e = ground arith
tick_state-Advance ts msgs tx post q committed st e = stays (ground arith) (ground arith)
tick_state-Advance ts msgs tx post q rolled_back_by_server st e =
    stays (ground arith) (ground arith)

-- ===== src/Tests/Client.antt =====
-- Runs of src/tx/client: a client with the id 2 and a server with the id 1.
use simple_db.Base.{◌≤◌, pos, ◌≡◌, refl, arith, insert, [], ◌∷◌, Result, ok, err, find}
use simple_db.Tx.Generator
use simple_db.Tx.Discovery
use simple_db.Tx.Discovery.{get_random}
use simple_db.Tx.Msg.{Messages, create_msg_start, create_msg_put, get_txid_from_msg_payload}
use simple_db.Tx.Retrier
use simple_db.Tx.Retrier.{schedule}
use simple_db.Tx.Client.Spec.{TxSpec, Action}
use simple_db.Tx.Client.Requests.{
  RequestsManager, RequestState, Post, request_start, request_completed, add_put, complete_request,
  prepare_msg, completed_of, export_results,
}
use simple_db.Tx.Client.Requests
use simple_db.Tx.Client.Requests.Count.{IsConsistent}
use simple_db.Tx.Client.Requests.Consistent.{
  init-IsConsistent, add_put-IsConsistent, complete_request-IsConsistent, Prepared,
  prepare_msg-Prepared,
}
use simple_db.Tx.Client.Requests.Exported.{
  Reached, start, adding, sending, answered, export_results-Reached,
}
use simple_db.Tx.Client.Participant.{schedule_start_msg, checked_txid, schedule_requests}
use simple_db.Tx.Client.Transaction.{ClientTx, create, tick}
use simple_db.Tx.Client.Transaction.Progress.{Advance}
use simple_db.Tx.Client.Transaction.Tick.{tick-Advance}

abbrev post : Post
post = record { gen = Generator.init; retrier = Retrier.init }

abbrev one_put : RequestsManager
one_put = add_put (pos 5) (pos 7) Requests.init

one_put-IsConsistent : IsConsistent one_put
one_put-IsConsistent = add_put-IsConsistent (pos 5) (pos 7) Requests.init init-IsConsistent

prepare_msg-Prepared_example :
    (q : RequestsManager × Post) × (prepare_msg (pos 2) (pos 1) (pos 1001) (pos 3) one_put post
      ≡ ok q)
    × Prepared one_put post q.0 q.1
prepare_msg-Prepared_example =
    prepare_msg-Prepared (pos 2) (pos 1) (pos 1001) (pos 3) one_put post one_put-IsConsistent

-- The put has been sent as the message with the id 1.
abbrev sent : RequestsManager
sent = record {
  puts_table_status = record { status = request_start; key = pos 5; value = pos 7 } ∷ [];
  next_put = 1;
  completed_puts = 0;
  table_scheduled_puts = (1, 0) ∷ [];
}

sent-IsConsistent : IsConsistent sent
unfolding find completed_of
sent-IsConsistent = record {
  sent = ((λ e. cc), tt);
  counted = refl;
  scheduled = λ id i e. ground arith;
}

complete_request-IsConsistent_example :
    (m' : RequestsManager) × (complete_request 1 sent ≡ ok m')
    × IsConsistent m'
    × (sent.completed_puts ≤ m'.completed_puts)
complete_request-IsConsistent_example = complete_request-IsConsistent 1 sent sent-IsConsistent

-- One put that has been added, sent and acknowledged.
abbrev after_prepare : Result (RequestsManager × Post) → Post
after_prepare (ok q) = q.1
after_prepare (err e) = post

abbrev sent_post : Post
sent_post = after_prepare (prepare_msg (pos 2) (pos 1) (pos 1001) (pos 3) one_put post)

one_sent : prepare_msg (pos 2) (pos 1) (pos 1001) (pos 3) one_put post ≡ ok (sent, sent_post)
unfolding add_put prepare_msg insert create_msg_put Generator.get_next_msg_id
one_sent = refl

abbrev finished : RequestsManager
finished = record sent {
  puts_table_status = record { status = request_completed; key = pos 5; value = pos 7 } ∷ [];
  completed_puts = 1;
}

one_answered : complete_request 1 sent ≡ ok finished
unfolding complete_request find
one_answered = refl

finished-Reached : Reached ((pos 5, pos 7) ∷ []) finished
finished-Reached =
    answered 1
      (sending (pos 2) (pos 1) (pos 1001) (pos 3) post sent_post (adding (pos 5) (pos 7) start)
        one_sent)
      one_answered

export_results-Reached_example : export_results finished [] ≡ (pos 5, pos 7) ∷ []
export_results-Reached_example = export_results-Reached finished-Reached [] refl

abbrev spec : TxSpec
spec = record {
  earliest_start_ts = pos 1;
  earliest_commit_ts = pos 2;
  gets = [];
  puts = record { earliest_ts = pos 1; key = pos 5; value = pos 7 } ∷ [];
  action = Action.commit;
}

abbrev tx : ClientTx
tx = create (pos 2) spec (Discovery.single (pos 1))

abbrev or_else : Result (ClientTx × Post × Messages) → ClientTx × Post × Messages
or_else (ok r) = r
or_else (err e) = (tx, post, [])

-- The tick that starts the transaction.
abbrev started : ClientTx × Post × Messages
started = or_else (tick (pos 1) [] [] tx post)

tick-Advance_example : Advance (pos 1) tx started.0
unfolding tick get_random schedule_start_msg checked_txid schedule_requests create_msg_start
    get_txid_from_msg_payload schedule Generator.get_next_msg_id Generator.get_next_tx_id insert
tick-Advance_example = tick-Advance (pos 1) [] [] tx post started refl

-- ===== src/Tests/Runtime.antt =====
-- The two runs of tests/test_full_tx.cpp: clients put to one key at the server with the id 1.
use simple_db.Base.{
  ℕ, pos, ◌≡◌, refl, List, [], ◌∷◌, Option, none, some, Result, ok, err, ◌>>=◌, map, ◌++◌,
}
use simple_db.Tx.Types.{ActorId, Key, Value}
use simple_db.Tx.Proxy.{send}
use simple_db.Tx.Discovery.{single}
use simple_db.Tx.Msg.{Messages}
use simple_db.Tx.Client.{get_tx}
use simple_db.Tx.Client
use simple_db.Tx.Client.Spec.{TxSpec, Action}
use simple_db.Tx.Client.Transaction.{ClientTxState, export_results}
use simple_db.Tx.Client.Transaction
use simple_db.Tx.Server
use simple_db.Tx.Server.Snapshot.{Order}
use simple_db.Tx.Runtime.{Runtime, Actor, client, server, init, register_actor, run}
use simple_db.Tests.Queue.{list_queue, Sent}

abbrev pub as_listed : Order
as_listed d = d

abbrev reversed : Order
reversed [] = []
reversed (m ∷ d) = reversed d ++ m ∷ []

abbrev spec_of_put : Value → TxSpec
spec_of_put v = record {
  earliest_start_ts = pos 0;
  earliest_commit_ts = pos 2;
  gets = [];
  puts = record { earliest_ts = pos 2; key = pos 17; value = v } ∷ [];
  action = Action.commit;
}

abbrev the_server : Actor
the_server = server (Server.init (pos 1) [] (record { source_actor_id = pos 1 }))

abbrev client_of : ActorId → TxSpec → Actor
client_of id spec =
    client (Client.init id (spec ∷ []) (single (pos 1)) (record { source_actor_id = id }))

unfoldable register_all : List Actor → Runtime Sent → Result (Runtime Sent)
register_all [] r = ok r
register_all (actor ∷ actors) r = do r' ← register_actor list_queue actor r; register_all actors r'

-- The state of a client's first transaction and the puts that it reports.
abbrev outcome : Actor → Option (ClientTxState × List (Key × Value))
outcome (server s) = none
outcome (client c) = elim (get_tx 0 c) [
  | none ↦ none
  | some tx ↦ some (tx.state, (export_results tx).puts)
]

unfoldable run_of :
    Order → List Actor → ℕ → Result (List (Option (ClientTxState × List (Key × Value))))
run_of order actors n = do
  r ← register_all actors (init list_queue)
  r' ← run order list_queue n r
  ok (map outcome r'.actors)

abbrev done : Value → Option (ClientTxState × List (Key × Value))
done v = some (Transaction.committed, (pos 17, v) ∷ [])

abbrev two_clients : List Actor
two_clients =
    the_server
    ∷ client_of (pos 2) (spec_of_put (pos 1177))
    ∷ client_of (pos 3) (spec_of_put (pos 2277))
    ∷ []

abbrev rolled_back : Value → Option (ClientTxState × List (Key × Value))
rolled_back v = some (Transaction.rolled_back_by_server, (pos 17, v) ∷ [])

-- A client by itself commits. Of two clients that put to one key, the server's loop over its
-- transactions decides which one commits.
client_outcomes :
    (run_of as_listed (the_server ∷ client_of (pos 2) (spec_of_put (pos 1177)) ∷ []) 10
      ≡ ok (none ∷ done (pos 1177) ∷ []))
    × (run_of as_listed two_clients 20 ≡ ok (none ∷ done (pos 1177) ∷ rolled_back (pos 2277) ∷ []))
    × (run_of reversed two_clients 20 ≡ ok (none ∷ rolled_back (pos 1177) ∷ done (pos 2277) ∷ []))
unfolding run_of register_all simple_db.Base.find simple_db.Base.contains simple_db.Base.insert
    simple_db.Base.erase simple_db.Tx.Client.get_tx simple_db.Tx.Client.push_msg
    simple_db.Tx.Client.group_msgs simple_db.Tx.Client.take_msgs simple_db.Tx.Client.tick_all
    simple_db.Tx.Client.on_tick simple_db.Tx.Client.Participant.schedule_start_msg
    simple_db.Tx.Client.Participant.is_open simple_db.Tx.Client.Participant.checked_read_ts
    simple_db.Tx.Client.Participant.checked_txid simple_db.Tx.Client.Participant.last_ack_ts
    simple_db.Tx.Client.Participant.process_replies_start_sent
    simple_db.Tx.Client.Participant.process_reply_open
    simple_db.Tx.Client.Participant.process_replies_open
    simple_db.Tx.Client.Participant.process_incoming
    simple_db.Tx.Client.Participant.schedule_requests simple_db.Tx.Client.Participant.add_put
    simple_db.Tx.Client.Participant.completed_puts simple_db.Tx.Client.Participant.export_results
    simple_db.Tx.Client.Requests.add_put simple_db.Tx.Client.Requests.complete_at
    simple_db.Tx.Client.Requests.complete_request simple_db.Tx.Client.Requests.prepare_one
    simple_db.Tx.Client.Requests.prepare_rounds simple_db.Tx.Client.Requests.prepare_msg
    simple_db.Tx.Client.Requests.completed_of simple_db.Tx.Client.Requests.export_results
    simple_db.Tx.Client.Transaction.progress_state simple_db.Tx.Client.Transaction.replies_of
    simple_db.Tx.Client.Transaction.external_of simple_db.Tx.Client.Transaction.incoming_all
    simple_db.Tx.Client.Transaction.requests_all simple_db.Tx.Client.Transaction.completed_requests
    simple_db.Tx.Client.Transaction.configure_coordinator
    simple_db.Tx.Client.Transaction.configure_read_ts simple_db.Tx.Client.Transaction.begin_tx
    simple_db.Tx.Client.Transaction.tick_not_started simple_db.Tx.Client.Transaction.tick_start_sent
    simple_db.Tx.Client.Transaction.give_put simple_db.Tx.Client.Transaction.next_put_step
    simple_db.Tx.Client.Transaction.commit_step simple_db.Tx.Client.Transaction.tick_open
    simple_db.Tx.Client.Transaction.process_reply_commit_sent
    simple_db.Tx.Client.Transaction.process_replies_commit_sent
    simple_db.Tx.Client.Transaction.tick_state simple_db.Tx.Client.Transaction.tick
    simple_db.Tx.Client.Transaction.export_puts simple_db.Tx.Client.Transaction.export_results
    simple_db.Tx.Clock.current simple_db.Tx.Clock.next simple_db.Tx.Discovery.get_by_key
    simple_db.Tx.Discovery.get_random simple_db.Tx.Generator.get_next_msg_id
    simple_db.Tx.Generator.get_next_tx_id simple_db.Tx.Generator.get_current_tx_id
    simple_db.Tx.Msg.create_msg_start simple_db.Tx.Msg.create_msg_start_ack
    simple_db.Tx.Msg.create_msg_put simple_db.Tx.Msg.create_msg_put_reply
    simple_db.Tx.Msg.create_msg_commit simple_db.Tx.Msg.create_msg_commit_ack
    simple_db.Tx.Msg.create_msg_rolled_back_by_server simple_db.Tx.Msg.eq_message
    simple_db.Tx.Msg.lt_message simple_db.Tx.Msg.get_txid_from_msg_payload
    simple_db.Tx.Msg.delivered_last simple_db.Tx.Proxy.send simple_db.Tx.Retrier.send_once
    simple_db.Tx.Retrier.schedule simple_db.Tx.Retrier.get_scheduled_msgs
    simple_db.Tx.Runtime.get_actor_id simple_db.Tx.Runtime.on_tick
    simple_db.Tx.Runtime.clear_inboxes simple_db.Tx.Runtime.register_actor simple_db.Tx.Runtime.send
    simple_db.Tx.Runtime.send_all simple_db.Tx.Runtime.deliver simple_db.Tx.Runtime.fill
    simple_db.Tx.Runtime.fill_destination_actor_messages simple_db.Tx.Runtime.pass_time
    simple_db.Tx.Runtime.tick_actor simple_db.Tx.Runtime.tick_actors
    simple_db.Tx.Runtime.send_to_actors simple_db.Tx.Runtime.run_tick simple_db.Tx.Runtime.run
    simple_db.Tx.Server.push_msg simple_db.Tx.Server.group_msgs simple_db.Tx.Server.get_or_create_tx
    simple_db.Tx.Server.tick_tx simple_db.Tx.Server.tick_txs simple_db.Tx.Server.on_tick
    simple_db.Tx.ServerTx.find_conflict simple_db.Tx.ServerTx.apply_puts
    simple_db.Tx.ServerTx.process_msg simple_db.Tx.ServerTx.process_msgs simple_db.Tx.ServerTx.tick
    simple_db.Tx.Storage.last simple_db.Tx.Storage.insert_entry simple_db.Tx.Storage.get_last
    simple_db.Tx.Storage.history simple_db.Tx.Storage.apply
client_outcomes = (refl, refl, refl)

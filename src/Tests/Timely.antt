-- ===== src/Tests/Timely.antt =====
-- A round of src/tx/runtime in which a server gets a message and answers it.
use simple_db.Base.{
  pos, negsuc, ◌≡◌, refl, ap, ◌∙◌, true, false, List, [], ◌∷◌, Result, ok, err, int_eq,
}
use mathlib.Core.Logic.Or
use mathlib.Core.Bool.{Bool-set}
use mathlib.Core.List.{eq-or-mem_of_mem-cons, not-mem-nil}
use simple_db.Tx.Clock.{Clock, current}
use simple_db.Tx.Msg.{SentMessage}
use simple_db.Tx.Server
use simple_db.Tx.Runtime.{Runtime, server, init, run_tick}
use simple_db.Tx.Runtime.Delivery.{is_due}
use simple_db.Tx.Runtime.Timely.{IsTimely, Passed, run_tick-Passed}
use simple_db.Tests.Queue.{list_queue, Sent}
use simple_db.Tests.Delivery.{sent_at_3}
use simple_db.Tests.Runtime.{as_listed}

abbrev before : Runtime Sent
before = record (init list_queue) {
  clock = record { tm = pos 3 };
  actors = server (Server.init (pos 1) [] (record { source_actor_id = pos 1 })) ∷ [];
  destination_actor_messages = (pos 1, []) ∷ [];
  messages_queue = sent_at_3 ∷ [];
}

abbrev after : Runtime Sent
after = elim (run_tick as_listed list_queue before) [ ok r ↦ r | err e ↦ before ]

before-IsTimely : IsTimely list_queue before
unfolding current
before-IsTimely m h =
    Or.elim (Bool-set _ _) (eq-or-mem_of_mem-cons h) (λ e. ap (is_due (pos 3)) e)
      (λ h'. absurd (not-mem-nil {a = m} h'))

before_after : run_tick as_listed list_queue before ≡ ok after
unfolding simple_db.Base.find simple_db.Base.insert simple_db.Tx.Clock.current
    simple_db.Tx.Clock.next simple_db.Tx.Generator.get_next_msg_id
    simple_db.Tx.Msg.create_msg_start_ack simple_db.Tx.Msg.get_txid_from_msg_payload
    simple_db.Tx.Msg.delivered_last simple_db.Tx.Proxy.send simple_db.Tx.Retrier.send_once
    simple_db.Tx.Retrier.schedule simple_db.Tx.Retrier.get_scheduled_msgs
    simple_db.Tx.Runtime.get_actor_id simple_db.Tx.Runtime.on_tick
    simple_db.Tx.Runtime.clear_inboxes simple_db.Tx.Runtime.send simple_db.Tx.Runtime.send_all
    simple_db.Tx.Runtime.deliver simple_db.Tx.Runtime.fill
    simple_db.Tx.Runtime.fill_destination_actor_messages simple_db.Tx.Runtime.pass_time
    simple_db.Tx.Runtime.tick_actor simple_db.Tx.Runtime.tick_actors
    simple_db.Tx.Runtime.send_to_actors simple_db.Tx.Runtime.run_tick simple_db.Tx.Server.push_msg
    simple_db.Tx.Server.group_msgs simple_db.Tx.Server.get_or_create_tx simple_db.Tx.Server.tick_tx
    simple_db.Tx.Server.tick_txs simple_db.Tx.Server.on_tick simple_db.Tx.ServerTx.process_msg
    simple_db.Tx.ServerTx.process_msgs simple_db.Tx.ServerTx.tick
before_after = refl

run_tick-Passed_example : Passed as_listed list_queue before after
run_tick-Passed_example =
    run_tick-Passed as_listed list_queue before after before-IsTimely before_after

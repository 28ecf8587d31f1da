-- ===== src/Tx/Runtime.antt =====
-- src/tx/runtime/runtime.h and runtime.cpp, and src/tx/actor.h: the loop that delivers messages and
-- ticks the actors. The actors of the program are the client and the server.
pub mod Queue
pub mod Delivery
pub mod Ticks
pub mod Timely
use simple_db.Base.{
  ℕ, zero, suc, pos, Bool, true, false, not, List, [], ◌∷◌, ◌++◌, Option, none, some, Result, ok,
  err, ◌>>=◌, ◌>>◌, guard, or_fail, invalid_argument, runtime_error, out_of_fuel, length, leb_ℤ,
  eqb_ℤ, if◌then◌else◌, int_eq, Dict, find, contains, insert,
}
use simple_db.Tx.Types.{ActorId, TxId, Timestamp}
use simple_db.Tx.Generator.{Generator}
use simple_db.Tx.Generator
use simple_db.Tx.Clock.{Clock, current, next}
use simple_db.Tx.Clock
use simple_db.Tx.Msg.{Message, Messages, SentMessage, delivered_last}
use simple_db.Tx.Server.{Server}
use simple_db.Tx.Server
use simple_db.Tx.Client.{Client}
use simple_db.Tx.Client
use Queue.{PriorityQueue}

-- IActor and its two classes.
pub data Actor : Type 0 where
  client : Client → Actor
  server : Server → Actor

unfoldable pub get_actor_id : Actor → ActorId
get_actor_id (client c) = c.actor_id
get_actor_id (server s) = s.actor_id

-- `order` is the order in which a server's loop meets the entries of its unordered_map.
module _ (order : Dict TxId Messages → List (TxId × Messages)) where
  -- IActor::on_tick; the last part of the result is what the actor sends.
  unfoldable pub on_tick :
      Messages → Actor → Clock → Generator → Result (Actor × Clock × Generator × Messages)
  on_tick msgs (client c) clock gen = do
    (c', clock', gen', out) ← Client.on_tick msgs c clock gen
    ok (client c', clock', gen', out)
  on_tick msgs (server s) clock gen = do
    (s', clock', gen', out) ← Server.on_tick order msgs s clock gen
    ok (server s', clock', gen', out)

abbrev pub Inboxes : Type 0
Inboxes = Dict ActorId Messages

-- `Q` is the type of the message queue. The counters of the process stand beside the members.
pub record Runtime (Q : Type 0) : Type 0 where
  pub timestamp : Timestamp
  pub clock : Clock
  pub gen : Generator
  pub actors : List Actor
  pub destination_actor_messages : Inboxes
  pub messages_queue : Q

unfoldable pub clear_inboxes : Inboxes → Inboxes
clear_inboxes [] = []
clear_inboxes ((id, msgs) ∷ d) = (id, []) ∷ clear_inboxes d

-- destination_actor_messages_[destination], which default-constructs a missing vector.
abbrev pub inbox_of : Option Messages → Messages
inbox_of none = []
inbox_of (some msgs) = msgs

module _ (pq : PriorityQueue SentMessage delivered_last) where
  open pq use {Queue, empty, push, top, pop, items}

  abbrev pub init : Runtime Queue
  init = record {
    timestamp = pos 0;
    clock = Clock.init;
    gen = Generator.init;
    actors = [];
    destination_actor_messages = [];
    messages_queue = empty;
  }

  unfoldable pub register_actor : Actor → Runtime Queue → Result (Runtime Queue)
  unfolding contains insert
  register_actor actor r = do
    guard (not (contains (get_actor_id actor) r.destination_actor_messages)) invalid_argument
    ok (record r {
      destination_actor_messages = insert (get_actor_id actor) [] r.destination_actor_messages;
      actors = r.actors ++ actor ∷ [];
    })

  unfoldable pub send : Message → Runtime Queue → Runtime Queue
  send msg r = record r {
    messages_queue =
        push
          (record { send_timestamp = r.timestamp; delivery_timestamp = current r.clock; msg = msg })
          r.messages_queue;
  }

  -- An actor sends its messages one by one.
  unfoldable pub send_all : Messages → Runtime Queue → Runtime Queue
  send_all [] r = r
  send_all (msg ∷ msgs) r = send_all msgs (send msg r)

  -- A message that is due goes to the end of its destination's vector.
  unfoldable pub deliver : SentMessage → Runtime Queue → Result (Runtime Queue)
  deliver sent r = do
    msgs ← or_fail (find sent.msg.destination r.destination_actor_messages) runtime_error
    ok (record r {
      destination_actor_messages =
          insert sent.msg.destination (msgs ++ sent.msg ∷ []) r.destination_actor_messages;
      messages_queue = pop r.messages_queue;
    })

  -- The loop of fill_destination_actor_messages.
  unfoldable pub fill : ℕ → Runtime Queue → Result (Runtime Queue)
  fill zero r = err out_of_fuel
  fill (suc fuel) r = elim (top r.messages_queue) [
    | none ↦ ok r
    | some sent ↦
        let rest = (deliver sent r >>= fill fuel) in
        if leb_ℤ sent.delivery_timestamp r.timestamp then rest else ok r
  ]

  -- One round takes one message off the queue.
  unfoldable pub fill_destination_actor_messages : Runtime Queue → Result (Runtime Queue)
  unfolding fill
  fill_destination_actor_messages r = fill (suc (length (items r.messages_queue))) r

  -- Time goes on also if no actor took a timestamp.
  unfoldable pub pass_time : Runtime Queue → Runtime Queue
  pass_time r =
      if eqb_ℤ (current r.clock) r.timestamp
      then (let (ts, clock) = next r.clock in record r { timestamp = ts; clock = clock })
      else r

module _ (order : Dict TxId Messages → List (TxId × Messages))
    (pq : PriorityQueue SentMessage delivered_last) where
  open pq use {Queue}

  -- The actor's tick, with the messages moved out of its vector, and what it sends.
  unfoldable pub tick_actor : Actor → Runtime Queue → Result (Actor × Runtime Queue)
  tick_actor actor r = do
    let id = get_actor_id actor
    let msgs = inbox_of (find id r.destination_actor_messages)
    (actor', clock, gen, out) ← on_tick order msgs actor r.clock r.gen
    ok (
      actor',
      send_all pq out (record r {
        clock = clock;
        gen = gen;
        destination_actor_messages = insert id [] r.destination_actor_messages;
      }),
    )

  unfoldable pub tick_actors : List Actor → Runtime Queue → Result (List Actor × Runtime Queue)
  tick_actors [] r = ok ([], r)
  tick_actors (actor ∷ actors) r = do
    (actor', r') ← tick_actor actor r
    (actors', r'') ← tick_actors actors r'
    ok (actor' ∷ actors', r'')

  unfoldable pub send_to_actors : Runtime Queue → Result (Runtime Queue)
  send_to_actors r = do (actors, r') ← tick_actors r.actors r; ok (record r' { actors = actors })

  -- The body of the loop of `run`.
  unfoldable pub run_tick : Runtime Queue → Result (Runtime Queue)
  run_tick r = do
    filled ← fill_destination_actor_messages pq (record r {
      destination_actor_messages = clear_inboxes r.destination_actor_messages;
      timestamp = current r.clock;
    })
    ticked ← send_to_actors filled
    ok (pass_time pq ticked)

  unfoldable pub run : ℕ → Runtime Queue → Result (Runtime Queue)
  run zero r = ok r
  run (suc ticks) r = do r' ← run_tick r; run ticks r'

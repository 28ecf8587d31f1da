-- ===== src/Tx/Client/Requests.antt =====
-- src/tx/client/requests_manager.h and requests_manager.cpp: the puts of one participant. The
-- counters are at most the number of puts, so they do not wrap.
pub mod Count
pub mod Consistent
pub mod Exported
use simple_db.Base.{
  ℕ, zero, suc, ◌+◌, ◌-◌, List, [], ◌∷◌, ◌++◌, Option, none, some, Result, ok, err, ◌>>=◌, or_fail,
  out_of_range, length, get_elem?, set, Dict, find, insert, nat_eq,
}
use simple_db.Tx.Types.{ActorId, TxId, MsgId, Timestamp, Key, Value}
use simple_db.Tx.Generator.{Generator}
use simple_db.Tx.Msg.{create_msg_put}
use simple_db.Tx.Retrier.{Retrier, schedule}

pub data Status : Type 0 where
  request_not_started request_start request_completed : Status

pub record RequestState : Type 0 where
  pub status : Status
  pub key : Key
  pub value : Value

pub record RequestsManager : Type 0 where
  pub puts_table_status : List RequestState
  pub next_put : ℕ
  pub completed_puts : ℕ
  pub table_scheduled_puts : Dict MsgId ℕ

-- What the parts of a client share: the process's counters and the client's retrier.
pub record Post : Type 0 where
  pub gen : Generator
  pub retrier : Retrier

abbrev pub init : RequestsManager
init = record {
  puts_table_status = [];
  next_put = 0;
  completed_puts = 0;
  table_scheduled_puts = [];
}

unfoldable pub add_put : Key → Value → RequestsManager → RequestsManager
add_put key value m = record m {
  puts_table_status =
      m.puts_table_status ++ record { status = request_not_started; key = key; value = value } ∷ [];
}

abbrev set_status : ℕ → RequestState → Status → List RequestState → List RequestState
set_status i r st states = set states i (record r { status = st })

-- The request at an index that was scheduled. Only one that has started is completed.
unfoldable pub complete_at : ℕ → RequestsManager → Result RequestsManager
complete_at i m = do
  r ← or_fail (get_elem? m.puts_table_status i) out_of_range
  ok (elim r.status [
    | request_not_started ↦ m
    | request_start ↦ record m {
      puts_table_status = set_status i r request_completed m.puts_table_status;
      completed_puts = m.completed_puts + 1;
    }
    | request_completed ↦ m
  ])

-- A reply to a message that was not sent from here is only reported.
unfoldable pub complete_request : MsgId → RequestsManager → Result RequestsManager
unfolding find complete_at
complete_request original_msg_id m = elim (find original_msg_id m.table_scheduled_puts) [
  | none ↦ ok m
  | some old_next_put ↦ complete_at old_next_put m
]

-- One round of the loop of prepare_msg; the scheduler hands the message to the retrier.
unfoldable pub prepare_one :
    ActorId → ActorId → TxId → Timestamp → RequestsManager → Post → Result (RequestsManager × Post)
prepare_one client coordinator txid ts m post = do
  r ← or_fail (get_elem? m.puts_table_status m.next_put) out_of_range
  let (msg, gen) = create_msg_put client coordinator txid r.key r.value post.gen
  ok (
    record m {
      puts_table_status = set_status m.next_put r request_start m.puts_table_status;
      table_scheduled_puts = insert msg.msg_id m.next_put m.table_scheduled_puts;
      next_put = m.next_put + 1;
    },
    record { gen = gen; retrier = (schedule ts msg post.retrier).1 },
  )

-- The loop, by the number of rounds that are left.
unfoldable pub prepare_rounds :
    ℕ
    → ActorId
    → ActorId
    → TxId
    → Timestamp
    → RequestsManager
    → Post
    → Result (RequestsManager × Post)
prepare_rounds zero client coordinator txid ts m post = ok (m, post)
prepare_rounds (suc n) client coordinator txid ts m post = do
  (m', post') ← prepare_one client coordinator txid ts m post
  prepare_rounds n client coordinator txid ts m' post'

unfoldable pub prepare_msg :
    ActorId → ActorId → TxId → Timestamp → RequestsManager → Post → Result (RequestsManager × Post)
unfolding prepare_rounds prepare_one
prepare_msg client coordinator txid ts m =
    prepare_rounds (length m.puts_table_status - m.next_put) client coordinator txid ts m

-- The requests that are completed, in the order in which they were added.
unfoldable pub completed_of : List RequestState → List (Key × Value)
completed_of [] = []
completed_of (r ∷ rs) =
    let rest = completed_of rs in
    elim r.status [ request_completed ↦ (r.key, r.value) ∷ rest | _ ↦ rest ]

unfoldable pub export_results : RequestsManager → List (Key × Value) → List (Key × Value)
unfolding completed_of
export_results m puts = puts ++ completed_of m.puts_table_status

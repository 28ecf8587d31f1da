-- ===== src/Tests/Server.antt =====
-- Runs of src/tx/server: a server with the id 1 and two transactions of a client with the id 2, which
-- write the same key one after the other.
use simple_db.Base.{
  pos, negsuc, ◌≡◌, refl, List, [], ◌∷◌, none, some, Result, ok, err, arith, find, insert,
}
use simple_db.Tx.Types.{TxId, Timestamp, Key, Value}
use simple_db.Tx.Generator.{Generator}
use simple_db.Tx.Generator
use simple_db.Tx.Clock.{Clock, next}
use simple_db.Tx.Msg.{
  Message, Messages, create_msg_start_ack, create_msg_put_reply, create_msg_commit_ack,
  create_msg_rolled_back_by_server, msg_start, msg_put, msg_commit, start, put, commit,
  get_txid_from_msg_payload,
}
use simple_db.Tx.Retrier.{get_scheduled_msgs, schedule}
use simple_db.Tx.Retrier
use simple_db.Tx.Storage.{Storage, TagValue, get_last, apply}
use simple_db.Tx.Storage
use simple_db.Tx.Storage.Last
use simple_db.Tx.Storage.Last.{init-IsValid, apply-IsValid, get_last-apply}
use simple_db.Tx.ServerTx.{
  ServerTx, Env, DataPut, committed, open_tx, process_msg, tick, find_conflict, apply_puts,
}
use simple_db.Tx.ServerTx.Commit.{Answers, find_conflict-Answers, get_last-apply_puts}
use simple_db.Tx.ServerTx.Faults.{error_of, fault_of, process_msg-fault_of}
use simple_db.Tx.ServerTx.Effect.{Effect, process_msg-Effect}
use simple_db.Tx.Server.{Server, init, on_tick}
use simple_db.Tx.Server.Isolation.{Apart}
use simple_db.Tx.Server.Snapshot.{Order, Reach, boot, ticked, committed-Apart}
use simple_db.Tx.Proxy.{send}

abbrev empty_server : Server
empty_server = init (pos 1) [] (record { source_actor_id = pos 1 })

abbrev start_of : TxId → Message
start_of id = record {
  type = msg_start;
  source = pos 2;
  destination = pos 1;
  msg_id = 10;
  payload = start (record { txid = id; read_ts = negsuc 0 });
}

abbrev put_of : TxId → Key → Value → Message
put_of id k v = record {
  type = msg_put;
  source = pos 2;
  destination = pos 1;
  msg_id = 11;
  payload = put (record { txid = id; key = k; value = v });
}

abbrev commit_of : TxId → Message
commit_of id = record {
  type = msg_commit;
  source = pos 2;
  destination = pos 1;
  msg_id = 12;
  payload = commit (record { txid = id });
}

abbrev as_listed : Order
as_listed d = d

abbrev State : Type 0
State = Server × Clock × Generator × Messages

abbrev fresh : State
fresh = (empty_server, record { tm = pos 0 }, Generator.init, [])

abbrev or_else : Result State → State → State
or_else (ok s) t = s
or_else (err e) t = t

-- The state after a tick.
abbrev after : Messages → State → State
after msgs s = or_else (on_tick as_listed msgs s.0 s.1 s.2) s

abbrev first_open : State
first_open = after (start_of (pos 1001) ∷ []) fresh

abbrev first_done : State
first_done = after (put_of (pos 1001) (pos 5) (pos 7) ∷ commit_of (pos 1001) ∷ []) first_open

abbrev second_open : State
second_open = after (start_of (pos 1002) ∷ []) first_done

abbrev second_done : State
second_done = after (put_of (pos 1002) (pos 5) (pos 8) ∷ commit_of (pos 1002) ∷ []) second_open

abbrev finished : TxId → Timestamp → Timestamp → Value → ServerTx
finished id read_ts commit_ts v = record {
  client_id = pos 1;
  state = committed;
  txid = id;
  read_ts = read_ts;
  commit_ts = commit_ts;
  puts = record { key = pos 5; value = v } ∷ [];
}

ran : Reach (pos 1) [] (record { source_actor_id = pos 1 }) second_done.0
unfolding on_tick tick process_msg create_msg_start_ack create_msg_put_reply create_msg_commit_ack
    create_msg_rolled_back_by_server get_txid_from_msg_payload schedule get_scheduled_msgs next send
    find_conflict apply_puts get_last apply Generator.get_next_msg_id
ran =
    ticked as_listed (put_of (pos 1002) (pos 5) (pos 8) ∷ commit_of (pos 1002) ∷ []) second_open.1
      second_open.2 second_done
      (ticked as_listed (start_of (pos 1002) ∷ []) first_done.1 first_done.2 second_open
        (ticked as_listed (put_of (pos 1001) (pos 5) (pos 7) ∷ commit_of (pos 1001) ∷ [])
          first_open.1 first_open.2 first_done
          (ticked as_listed (start_of (pos 1001) ∷ []) fresh.1 fresh.2 first_open boot refl) refl)
        refl)
      refl

committed-Apart_example :
    Apart
      (finished (pos 1001) (pos 1) (pos 2) (pos 7))
      (finished (pos 1002) (pos 3) (pos 4) (pos 8))
unfolding on_tick tick process_msg create_msg_start_ack create_msg_put_reply create_msg_commit_ack
    create_msg_rolled_back_by_server get_txid_from_msg_payload schedule get_scheduled_msgs next send
    find_conflict apply_puts get_last apply Generator.get_next_msg_id
committed-Apart_example =
    committed-Apart (pos 1) [] (record { source_actor_id = pos 1 }) second_done.0 (pos 1001)
      (pos 1002) (finished (pos 1001) (pos 1) (pos 2) (pos 7))
      (finished (pos 1002) (pos 3) (pos 4) (pos 8)) (pos 5) ran (λ e. ground arith) refl refl refl
      refl refl refl

-- The storage after the first commit.
abbrev stored : Storage
stored = apply (pos 1001) (pos 2) (pos 5) (pos 7) Storage.init

stored-IsValid : Last.IsValid stored
stored-IsValid = apply-IsValid (pos 1001) (pos 2) (pos 5) (pos 7) Storage.init init-IsValid

get_last-apply_example :
    get_last (pos 5) (apply (pos 1002) (pos 4) (pos 5) (pos 8) stored)
    ≡ ok (some (pos 4, record { txid = pos 1002; value = pos 8 }))
unfolding get_last apply find insert
get_last-apply_example =
    get_last-apply (pos 5) (pos 1002) (pos 4) (pos 5) (pos 8) stored stored-IsValid

abbrev two_puts : List DataPut
two_puts = record { key = pos 5; value = pos 8 } ∷ record { key = pos 5; value = pos 9 } ∷ []

-- The read is older than the stored value.
find_conflict-Answers_example : Answers (pos 1) two_puts stored
find_conflict-Answers_example = find_conflict-Answers (pos 1) two_puts stored stored-IsValid

find_conflict_found : find_conflict (pos 1) two_puts stored ≡ ok (some (pos 1001))
unfolding find_conflict get_last apply find insert
find_conflict_found = refl

find_conflict-none : find_conflict (pos 3) two_puts stored ≡ ok none
unfolding find_conflict get_last apply find insert
find_conflict-none = refl

get_last-apply_puts_example :
    get_last (pos 5) (apply_puts (pos 1002) (pos 4) two_puts stored)
    ≡ ok (some (pos 4, record { txid = pos 1002; value = pos 8 }))
unfolding get_last apply find insert
get_last-apply_puts_example =
    get_last-apply_puts (pos 5) (pos 1002) (pos 4) two_puts stored stored-IsValid
      (λ o e. ground arith)

abbrev opened : ServerTx
opened = record {
  client_id = pos 1;
  state = open_tx;
  txid = pos 1002;
  read_ts = pos 1;
  commit_ts = negsuc 0;
  puts = two_puts;
}

abbrev env : Env
env = record { gen = Generator.init; storage = stored; retrier = Retrier.init }

abbrev after_commit : Result (ServerTx × Env) → ServerTx × Env
after_commit (ok r) = r
after_commit (err e) = (opened, env)

-- A commit that meets a newer value.
process_msg-Effect_example :
    let r = after_commit (process_msg (pos 6) (commit_of (pos 1002)) opened env) in
    Effect (pos 6) (commit_of (pos 1002)) opened stored r.0 r.1.storage
unfolding process_msg find_conflict get_last apply find insert
process_msg-Effect_example =
    let r = after_commit (process_msg (pos 6) (commit_of (pos 1002)) opened env) in
    process_msg-Effect (pos 6) (commit_of (pos 1002)) opened env r.0 r.1 refl

-- The commit is no fault.
process_msg-fault_of_example :
    error_of (process_msg (pos 6) (commit_of (pos 1002)) opened env)
    ≡ fault_of open_tx msg_commit (pos 1) (commit_of (pos 1002)).payload
process_msg-fault_of_example =
    process_msg-fault_of (pos 6) (commit_of (pos 1002)) opened env stored-IsValid

-- ===== src/Tx/ServerTx/Faults.antt =====
-- When process_msg of a server transaction faults.
use simple_db.Base.{
  ◌≡◌, refl, ◌∙◌, ap, Option, none, some, inl, inr, Fault, ok, err, assert_failed, runtime_error,
  Result, bad_variant_access, arith, eqb_ℤ, Bool-cases, if◌then◌else◌,
}
use simple_db.Tx.Types.{Timestamp, undefined_ts}
use simple_db.Tx.Msg.{Message, MessageType, MsgPayload, msg_start, msg_put, msg_commit, start, put}
use simple_db.Tx.Storage.Last.{IsValid}
use simple_db.Tx.ServerTx.{
  ServerTx, ServerTxState, not_started, open_tx, committed, rolled_back_by_server, Env, process_msg,
  process_msg_not_started, process_msg_open, start_tx, put_open, commit_open,
}
use simple_db.Tx.ServerTx.Commit.{find_conflict-Answers}

abbrev start_fault : MsgPayload → Option Fault
start_fault (start p) = none
start_fault _ = some bad_variant_access

abbrev put_fault : MsgPayload → Option Fault
put_fault (put p) = none
put_fault _ = some bad_variant_access

-- The fault that a message of the type causes, if it does.
abbrev pub fault_of : ServerTxState → MessageType → Timestamp → MsgPayload → Option Fault
fault_of not_started msg_start read_ts payload =
    if eqb_ℤ read_ts undefined_ts then start_fault payload else some assert_failed
fault_of open_tx msg_put read_ts payload = put_fault payload
fault_of committed type read_ts payload = some runtime_error
fault_of rolled_back_by_server type read_ts payload = some runtime_error
fault_of _ _ read_ts payload = none

abbrev pub error_of : {A : Type 0} → Result A → Option Fault
error_of (ok a) = none
error_of (err e) = some e

module _ (ts : Timestamp) (msg : Message) (tx : ServerTx) (env : Env) where
  start_tx-fault :
      (payload : MsgPayload)
      → msg.payload ≡ payload
      → error_of (start_tx ts msg tx env)
        ≡ (if eqb_ℤ tx.read_ts undefined_ts then start_fault payload else some assert_failed)
  unfolding start_tx
  start_tx-fault (start p) e = elim (Bool-cases (eqb_ℤ tx.read_ts undefined_ts)) [
    | inl new ↦ rw (new, e)
    | inr old ↦ rw old
  ]
  start_tx-fault _ e = elim (Bool-cases (eqb_ℤ tx.read_ts undefined_ts)) [
    | inl new ↦ rw (new, e)
    | inr old ↦ rw old
  ]

  put_open-fault :
      (payload : MsgPayload)
      → msg.payload ≡ payload
      → error_of (put_open ts msg tx env) ≡ put_fault payload
  unfolding put_open
  put_open-fault (put p) e = rw e
  put_open-fault _ e = rw e

  commit_open-fault : IsValid env.storage → error_of (commit_open ts msg tx env) ≡ none
  unfolding commit_open
  commit_open-fault valid = elim (find_conflict-Answers tx.read_ts tx.puts env.storage valid) [
    | inl (found, free) ↦ rw found
    | inr (id, found, conflict) ↦ rw found
  ]

  not_started-fault :
      (type : MessageType)
      → msg.type ≡ type
      → error_of (process_msg_not_started ts msg tx env)
        ≡ fault_of not_started type tx.read_ts msg.payload
  unfolding process_msg_not_started
  not_started-fault msg_start t = rw t (start_tx-fault msg.payload refl)
  not_started-fault _ t = rw t

  open-fault :
      (type : MessageType)
      → msg.type ≡ type
      → IsValid env.storage
      → error_of (process_msg_open ts msg tx env) ≡ fault_of open_tx type tx.read_ts msg.payload
  unfolding process_msg_open
  open-fault msg_put t valid = rw t (put_open-fault msg.payload refl)
  open-fault msg_commit t valid = rw t (commit_open-fault valid)
  open-fault _ t valid = rw t

  process-fault :
      (state : ServerTxState)
      → tx.state ≡ state
      → IsValid env.storage
      → error_of (process_msg ts msg tx env) ≡ fault_of state msg.type tx.read_ts msg.payload
  unfolding process_msg
  process-fault not_started st valid =
      let step : process_msg ts msg tx env ≡ process_msg_not_started ts msg tx env = ground arith in
      ap error_of step ∙ not_started-fault msg.type refl
  process-fault open_tx st valid =
      let step : process_msg ts msg tx env ≡ process_msg_open ts msg tx env = ground arith in
      ap error_of step ∙ open-fault msg.type refl valid
  process-fault committed st valid = ground arith
  process-fault rolled_back_by_server st valid = ground arith

  -- In a valid storage a message faults in these cases alone: for a finished transaction; for the
  -- start of a transaction that has a read time already; and for a start or a put without its payload.
  pub process_msg-fault_of :
      IsValid env.storage
      → error_of (process_msg ts msg tx env) ≡ fault_of tx.state msg.type tx.read_ts msg.payload
  process_msg-fault_of = process-fault tx.state refl

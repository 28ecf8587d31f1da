-- ===== src/Tx/ServerTx/Effect.antt =====
-- What one message does to a transaction and to the storage: the state machine of server_tx.cpp.
use simple_db.Base.{
  ◌≢◌, eqb_ℤ, eqb_ℤ_iff, ◌≡◌, refl, [], ◌∷◌, ◌++◌, Option, none, some, ok, guard, guard-true,
  assert_failed, on_ok, arith,
}
use simple_db.Tx.Types.{TxId, Timestamp, undefined_ts}
use simple_db.Tx.Msg.{
  Message, MessageType, msg_start, msg_put, msg_commit, MsgStartPayload, MsgPutPayload, get_start,
  get_put,
}
use simple_db.Tx.Storage.{Storage}
use simple_db.Tx.ServerTx.{
  ServerTx, ServerTxState, Env, not_started, open_tx, committed, rolled_back_by_server,
  find_conflict, apply_puts, start_tx, put_open, settle, commit_open, process_msg_not_started,
  process_msg_open, process_msg,
}

-- The step of a transaction at a time for a message, and of the storage with it.
pub data Effect (ts : Timestamp) (msg : Message) (tx : ServerTx) (s : Storage) (tx' : ServerTx)
    (s' : Storage) : Type 0 where
  early :
      tx.state ≡ not_started → msg.type ≢ msg_start → tx' ≡ tx → s' ≡ s → Effect ts msg tx s tx' s'
  opened :
      (p : MsgStartPayload)
      → tx.state ≡ not_started
      → msg.type ≡ msg_start
      → get_start msg.payload ≡ ok p
      → tx.read_ts ≡ undefined_ts
      → tx' ≡ record tx { read_ts = ts; txid = p.txid; state = open_tx }
      → s' ≡ s
      → Effect ts msg tx s tx' s'
  ignored :
      tx.state ≡ open_tx
      → msg.type ≢ msg_put
      → msg.type ≢ msg_commit
      → tx' ≡ tx
      → s' ≡ s
      → Effect ts msg tx s tx' s'
  buffered :
      (p : MsgPutPayload)
      → tx.state ≡ open_tx
      → msg.type ≡ msg_put
      → get_put msg.payload ≡ ok p
      → tx' ≡ record tx { puts = tx.puts ++ record { key = p.key; value = p.value } ∷ [] }
      → s' ≡ s
      → Effect ts msg tx s tx' s'
  aborted :
      (conflict_txid : TxId)
      → tx.state ≡ open_tx
      → msg.type ≡ msg_commit
      → find_conflict tx.read_ts tx.puts s ≡ ok (some conflict_txid)
      → tx' ≡ record tx { commit_ts = ts; state = rolled_back_by_server }
      → s' ≡ s
      → Effect ts msg tx s tx' s'
  accepted :
      tx.state ≡ open_tx
      → msg.type ≡ msg_commit
      → find_conflict tx.read_ts tx.puts s ≡ ok none
      → tx' ≡ record tx { commit_ts = ts; state = committed }
      → s' ≡ apply_puts tx.txid ts tx.puts s
      → Effect ts msg tx s tx' s'

module _ (ts : Timestamp) (msg : Message) (tx : ServerTx) (env : Env) (tx' : ServerTx)
    (env' : Env) where
  start_tx-Effect :
      tx.state ≡ not_started
      → msg.type ≡ msg_start
      → start_tx ts msg tx env ≡ ok (tx', env')
      → Effect ts msg tx env.storage tx' env'.storage
  unfolding start_tx
  start_tx-Effect st t e =
      on_ok (guard (eqb_ℤ tx.read_ts undefined_ts) assert_failed) _ e λ u fresh e'.
        on_ok (get_start msg.payload) _ e' λ p got done.
          opened p st t got
            ((eqb_ℤ_iff tx.read_ts undefined_ts).0
              (guard-true (eqb_ℤ tx.read_ts undefined_ts) assert_failed fresh))
            (ground arith) (ground arith)

  put_open-Effect :
      tx.state ≡ open_tx
      → msg.type ≡ msg_put
      → put_open ts msg tx env ≡ ok (tx', env')
      → Effect ts msg tx env.storage tx' env'.storage
  unfolding put_open
  put_open-Effect st t e =
      on_ok (get_put msg.payload) _ e
        λ p got done. buffered p st t got (ground arith) (ground arith)

  settle-Effect :
      (conflict : Option TxId)
      → tx.state ≡ open_tx
      → msg.type ≡ msg_commit
      → find_conflict tx.read_ts tx.puts env.storage ≡ ok conflict
      → settle ts msg (record tx { commit_ts = ts }) env conflict ≡ (tx', env')
      → Effect ts msg tx env.storage tx' env'.storage
  unfolding settle
  settle-Effect none st t f e = accepted st t f (ground arith) (ground arith)
  settle-Effect (some id) st t f e = aborted id st t f (ground arith) (ground arith)

  commit_open-Effect :
      tx.state ≡ open_tx
      → msg.type ≡ msg_commit
      → commit_open ts msg tx env ≡ ok (tx', env')
      → Effect ts msg tx env.storage tx' env'.storage
  unfolding commit_open
  commit_open-Effect st t e =
      on_ok (find_conflict tx.read_ts tx.puts env.storage) _ e
        λ conflict f done. settle-Effect conflict st t f (ground arith)

  not_started-Effect :
      (type : MessageType)
      → msg.type ≡ type
      → tx.state ≡ not_started
      → process_msg_not_started ts msg tx env ≡ ok (tx', env')
      → Effect ts msg tx env.storage tx' env'.storage
  unfolding process_msg_not_started
  not_started-Effect msg_start t st e = start_tx-Effect st t (ground arith)
  not_started-Effect _ t st e = early st (λ start. cc) (ground arith) (ground arith)

  open-Effect :
      (type : MessageType)
      → msg.type ≡ type
      → tx.state ≡ open_tx
      → process_msg_open ts msg tx env ≡ ok (tx', env')
      → Effect ts msg tx env.storage tx' env'.storage
  unfolding process_msg_open
  open-Effect msg_put t st e = put_open-Effect st t (ground arith)
  open-Effect msg_commit t st e = commit_open-Effect st t (ground arith)
  open-Effect _ t st e = ignored st (λ put. cc) (λ commit. cc) (ground arith) (ground arith)

  process-Effect :
      (state : ServerTxState)
      → tx.state ≡ state
      → process_msg ts msg tx env ≡ ok (tx', env')
      → Effect ts msg tx env.storage tx' env'.storage
  unfolding process_msg
  process-Effect not_started st e = not_started-Effect msg.type refl st (ground arith)
  process-Effect open_tx st e = open-Effect msg.type refl st (ground arith)
  process-Effect committed st e = cc
  process-Effect rolled_back_by_server st e = cc

  -- A message that is handled without a fault does what its type and the state ask for. To a
  -- transaction that is not started, a start gives the time as its read time and the payload's txid,
  -- and opens it. To an open one a put adds the payload's key and value behind its puts. A commit
  -- gives it the time as its commit time, rolls it back if the conflict test names a transaction, and
  -- otherwise commits it and applies its puts to the storage. Every other message leaves the
  -- transaction as it is, no field but these changes, and only a commit changes the storage.
  pub process_msg-Effect :
      process_msg ts msg tx env ≡ ok (tx', env') → Effect ts msg tx env.storage tx' env'.storage
  process_msg-Effect e = process-Effect tx.state refl e

-- ===== src/Tx/Client/Print.antt =====
-- The operators << of src/tx/client, as the text that they put on a stream. How a stream writes an
-- int64_t is a parameter.
use Prim.Native.String.{String, ◌++◌}
use simple_db.Base.{ℤ, eqb_ℤ, if◌then◌else◌}
use simple_db.Tx.Types.{Timestamp, undefined_ts}
use simple_db.Tx.Client.Spec.{TxSpec}
use simple_db.Tx.Client.Participant.{TxParticipant, TxParticipantState}
use simple_db.Tx.Client.Participant
use simple_db.Tx.Client.Transaction.{ClientTx, ClientTxState}
use simple_db.Tx.Client.Transaction
use simple_db.Tx.Client.{Client}

unfoldable pub print_participant_state : TxParticipantState → String
print_participant_state Participant.not_started = "NOT_STARTED"
print_participant_state Participant.start_msg_sent = "START_MSG_SENT"
print_participant_state Participant.tx_open = "TX_OPEN"

unfoldable pub print_tx_state : ClientTxState → String
print_tx_state Transaction.not_started = "NOT_STARTED"
print_tx_state Transaction.start_sent = "START_SENT"
print_tx_state Transaction.open_tx = "OPEN"
print_tx_state Transaction.commit_sent = "COMMIT_SENT"
print_tx_state Transaction.committed = "COMMITTED"
print_tx_state Transaction.rolled_back_by_server = "ROLLED_BACK_BY_SERVER"

module _ (int : ℤ → String) where
  -- std::to_string writes the digits that a stream writes.
  unfoldable pub check_none : Timestamp → String
  check_none ts = if eqb_ℤ ts undefined_ts then "None" else int ts

  unfoldable pub print_spec : TxSpec → String
  unfolding check_none
  print_spec spec =
      "[ClientTxSpec]"
      ++ "[earliest_start_ts="
      ++ check_none spec.earliest_start_ts
      ++ "]"
      ++ "[earliest_commit_ts="
      ++ check_none spec.earliest_commit_ts
      ++ "]"

  unfoldable pub print_participant : TxParticipant → String
  unfolding print_participant_state
  print_participant p =
      "[TxParticipant]"
      ++ "[client="
      ++ int p.client_tx_actor_id
      ++ "]"
      ++ "[server="
      ++ int p.coordinator_actor_id
      ++ "]"
      ++ "[txid="
      ++ int p.txid
      ++ "]"
      ++ "[state="
      ++ print_participant_state p.state
      ++ "]"

  unfoldable pub print_tx : ClientTx → String
  unfolding print_spec print_tx_state
  print_tx tx =
      "[ClientTx]"
      ++ "[actor_id="
      ++ int tx.actor_id
      ++ "]"
      ++ print_spec tx.spec
      ++ "[state="
      ++ print_tx_state tx.state
      ++ "]"
      ++ "[coordinator="
      ++ int tx.coordinator_actor_id
      ++ "]"

  unfoldable pub print_client : Client → String
  print_client c = "[Client]" ++ "[actor_id=" ++ int c.actor_id ++ "]"

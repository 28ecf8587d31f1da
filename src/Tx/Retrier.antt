-- ===== src/Tx/Retrier.antt =====
-- src/tx/retrier: the messages that wait for the end of a tick. The timestamps are not used.
use simple_db.Base.{ℤ, negsuc, [], ◌∷◌, ◌++◌}
use simple_db.Tx.Types.{Timestamp}
use simple_db.Tx.Msg.{Message, Messages}

pub record Retrier : Type 0 where
  pub schedule_msgs : Messages

abbrev pub init : Retrier
init = record { schedule_msgs = [] }

unfoldable pub send_once : Timestamp → Message → Retrier → Retrier
send_once ts msg r = record { schedule_msgs = r.schedule_msgs ++ msg ∷ [] }

-- The handle is always -1.
unfoldable pub schedule : Timestamp → Message → Retrier → ℤ × Retrier
unfolding send_once
schedule ts msg r = (negsuc 0, send_once ts msg r)

-- The messages go to the end of the caller's vector.
unfoldable pub get_scheduled_msgs : Timestamp → Messages → Retrier → Messages × Retrier
get_scheduled_msgs ts messages r = (messages ++ r.schedule_msgs, record { schedule_msgs = [] })

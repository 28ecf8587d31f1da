-- ===== src/Tx/Msg/Sent.antt =====
-- src/tx/msg/sent_message.h and sent_message.cpp: a message in the runtime's queue.
use simple_db.Base.{Bool, ◌&&◌, ◌||◌, ltb_ℤ, eqb_ℤ}
use simple_db.Tx.Types.{Timestamp}
use simple_db.Tx.Msg.Header.{Message}

pub record SentMessage : Type 0 where
  pub send_timestamp : Timestamp
  pub delivery_timestamp : Timestamp
  pub msg : Message

-- (delivery, send) of the left pair is above that of the right one.
unfoldable pub delivered_last : SentMessage → SentMessage → Bool
delivered_last a b =
    ltb_ℤ b.delivery_timestamp a.delivery_timestamp
    || (eqb_ℤ b.delivery_timestamp a.delivery_timestamp && ltb_ℤ b.send_timestamp a.send_timestamp)

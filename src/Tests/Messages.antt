-- ===== src/Tests/Messages.antt =====
-- Messages that are equal, messages in order, and the text of one.
use simple_db.Base.{pos, ◌≡◌, ◌↔◌, refl, true, false, ℕ, ℤ}
use Prim.Native.String.{String}
use simple_db.Tx.Msg.{Message, eq_message, lt_message}
use simple_db.Tx.Msg.Equal.{eq_message_iff}
use simple_db.Tx.Msg.Order.{Compared, lt_message-Compared}
use simple_db.Tx.Msg.Print.{print_message}
use simple_db.Tests.Delivery.{msg_to_one}

abbrev msg_to_two : Message
msg_to_two = record msg_to_one { destination = pos 2 }

eq_message_iff_example : (eq_message msg_to_one msg_to_two ≡ true) ↔ (msg_to_one ≡ msg_to_two)
eq_message_iff_example = eq_message_iff msg_to_one msg_to_two

two_destinations : eq_message msg_to_one msg_to_two ≡ false
unfolding eq_message
two_destinations = refl

lt_message-Compared_example : Compared msg_to_one msg_to_two true false
unfolding lt_message
lt_message-Compared_example = lt_message-Compared msg_to_one msg_to_two

abbrev int : ℤ → String
int n = "i"

abbrev size : ℕ → String
size n = "n"

printed :
    print_message int size msg_to_one
    ≡ "message [type=MSG_START][msg_id=n][source=i][destination=i] with payload: MsgStartPayload: txid=i, read_ts=i"
unfolding print_message
printed = refl

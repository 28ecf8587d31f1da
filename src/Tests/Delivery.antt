-- ===== src/Tests/Delivery.antt =====
-- A round of src/tx/runtime's delivery: one of two queued messages is due.
use simple_db.Base.{
  pos, negsuc, ◌≡◌, refl, [], ◌∷◌, none, some, ok, find, insert, Option-cases, inl, inr, int_eq,
}
use mathlib.Core.Path.{ap, ◌∙◌}
use mathlib.Core.Logic.Or
use mathlib.Core.HLevel.{⊥_prop}
use mathlib.Core.List.{Mem, eq-or-mem_of_mem-cons, not-mem-nil}
use simple_db.Tx.Msg.{Message, SentMessage, msg_start, start, delivered_last}
use simple_db.Tx.Runtime.{Runtime, init, deliver, fill_destination_actor_messages}
use simple_db.Tx.Runtime.Delivery.{IsKnown, Delivered, fill_destination_actor_messages-Delivered}
use simple_db.Tests.Queue.{list_queue, Sent}

abbrev pub msg_to_one : Message
msg_to_one = record {
  type = msg_start;
  source = pos 2;
  destination = pos 1;
  msg_id = 10;
  payload = start (record { txid = pos 1001; read_ts = negsuc 0 });
}

abbrev pub sent_at_3 : SentMessage
sent_at_3 = record { send_timestamp = pos 3; delivery_timestamp = pos 3; msg = msg_to_one }

abbrev sent_at_9 : SentMessage
sent_at_9 = record { send_timestamp = pos 3; delivery_timestamp = pos 9; msg = msg_to_one }

abbrev waiting : Runtime Sent
waiting = record (init list_queue) {
  timestamp = pos 4;
  destination_actor_messages = (pos 1, []) ∷ (pos 2, []) ∷ [];
  messages_queue = sent_at_9 ∷ sent_at_3 ∷ [];
}

waiting-destination :
    (m : SentMessage)
    → find m.msg.destination waiting.destination_actor_messages ≡ none
    → Mem m waiting.messages_queue
    → ⊥
unfolding find
waiting-destination m e h =
    Or.elim ⊥_prop (eq-or-mem_of_mem-cons h) (λ e'. known m sent_at_9 e' refl e)
      (λ h'.
        Or.elim ⊥_prop (eq-or-mem_of_mem-cons h') (λ e'. known m sent_at_3 e' refl e)
          (not-mem-nil {a = m}))
  where
    known :
        (m s : SentMessage)
        → m ≡ s
        → find s.msg.destination waiting.destination_actor_messages ≡ some []
        → find m.msg.destination waiting.destination_actor_messages ≡ none
        → ⊥
    known m s e f n =
        let g : find m.msg.destination waiting.destination_actor_messages ≡ some [] =
          ap (λ (x : SentMessage). find x.msg.destination waiting.destination_actor_messages) e
          ∙ f in
        cc

waiting-IsKnown : IsKnown list_queue waiting
waiting-IsKnown m h =
    elim (Option-cases (find m.msg.destination waiting.destination_actor_messages)) [
      | inl e ↦ absurd (waiting-destination m e h)
      | inr found ↦ found
    ]

fill_destination_actor_messages-Delivered_example :
    (r' : Runtime Sent) × (fill_destination_actor_messages list_queue waiting ≡ ok r')
    × Delivered list_queue waiting r'
fill_destination_actor_messages-Delivered_example =
    fill_destination_actor_messages-Delivered list_queue waiting waiting-IsKnown

takes_the_due_one :
    fill_destination_actor_messages list_queue waiting
    ≡ ok (record waiting {
      destination_actor_messages = (pos 1, msg_to_one ∷ []) ∷ (pos 2, []) ∷ [];
      messages_queue = sent_at_9 ∷ [];
    })
unfolding fill_destination_actor_messages delivered_last deliver find insert
takes_the_due_one = refl

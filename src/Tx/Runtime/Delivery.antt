-- ===== src/Tx/Runtime/Delivery.antt =====
-- The loop of fill_destination_actor_messages.
use simple_db.Base.{
  ℕ, zero, suc, ◌<◌, ◌≡◌, ◌⊎◌, refl, sym, ap, ◌∙◌, Bool, true, false, List, [], ◌∷◌, ◌++◌, Option,
  none, some, ok, arith, length, leb_ℤ, ◌==◌, if◌then◌else◌, int_eq, find, insert, find-insert,
  Option-cases, Bool-cases, inl, inr, All,
}
use mathlib.Core.List.{
  Mem, Perm, append_assoc, mem-cons_self, mem-cons_of_mem, mem-append_left, not-mem-nil,
}
use mathlib.Core.List.Perm
use mathlib.Core.List as L
use native.Mathlib.Bridge.{from_ℕ}
use simple_db.Tx.Types.{ActorId, Timestamp}
use simple_db.Tx.Msg.{Messages, SentMessage, delivered_last}
use simple_db.Tx.Runtime.Queue.{PriorityQueue}
use simple_db.Tx.Runtime.{Runtime, deliver, fill, fill_destination_actor_messages}

length-from_ℕ {ℓ} : {A : Type ℓ} (xs : List A) → length xs ≡ from_ℕ (L.length xs)
length-from_ℕ [] = refl
length-from_ℕ (x ∷ xs) = ap suc (length-from_ℕ xs)

length-Perm {ℓ} : {A : Type ℓ} {xs ys : List A} → Perm xs ys → length xs ≡ length ys
length-Perm {xs = xs} {ys = ys} p =
    length-from_ℕ xs ∙ ap from_ℕ (Perm.length-eq p) ∙ sym (length-from_ℕ ys)

abbrev pub is_due : Timestamp → SentMessage → Bool
is_due now sent = leb_ℤ sent.delivery_timestamp now

-- The messages to one actor, in the order in which they were taken.
unfoldable pub sent_to : ActorId → List SentMessage → Messages
sent_to id [] = []
sent_to id (sent ∷ taken) =
    let rest = sent_to id taken in if id == sent.msg.destination then sent.msg ∷ rest else rest

abbrev pub add_to : Option Messages → Messages → Option Messages
add_to none new = none
add_to (some old) new = some (old ++ new)

-- No message stands before one that the queue's order puts below it.
abbrev pub InOrder : List SentMessage → Type 0
InOrder [] = Unit
InOrder (sent ∷ taken) =
    ((b : SentMessage) → Mem b taken → delivered_last sent b ≡ false) × InOrder taken

module _ (pq : PriorityQueue SentMessage delivered_last) where
  open pq use {Queue, top, pop, items, items-pop, top_none, top_first}

  -- Every message in the queue is for an actor that is registered.
  abbrev pub IsKnown : Runtime Queue → Type 0
  IsKnown r =
      (m : SentMessage)
      → Mem m (items r.messages_queue)
      → (msgs : Messages) × (find m.msg.destination r.destination_actor_messages ≡ some msgs)

  pub record Delivered (r r' : Runtime Queue) : Type 0 where
    pub taken : List SentMessage
    pub from_queue : Perm (items r.messages_queue) (taken ++ items r'.messages_queue)
    pub all_due : All (λ m. is_due r.timestamp m ≡ true) taken
    pub none_left :
        (m : SentMessage) → Mem m (items r'.messages_queue) → is_due r.timestamp m ≡ false
    pub in_order : InOrder taken
    pub inboxes :
        (id : ActorId)
        → find id r'.destination_actor_messages
          ≡ add_to (find id r.destination_actor_messages) (sent_to id taken)
    pub only : r' ≡ record r {
      destination_actor_messages = r'.destination_actor_messages;
      messages_queue = r'.messages_queue;
    }

  length-pop :
      (a : SentMessage) (q : Queue)
      → top q ≡ some a
      → length (items q) ≡ suc (length (items (pop q)))
  length-pop a q e = length-Perm (items-pop a q e)

  fill_stop :
      (r : Runtime Queue)
      → ((m : SentMessage) → Mem m (items r.messages_queue) → is_due r.timestamp m ≡ false)
      → Delivered r r
  unfolding sent_to
  fill_stop r late = record {
    taken = [];
    from_queue = Perm.rfl;
    all_due = tt;
    none_left = late;
    in_order = tt;
    inboxes = λ id. add_to_nil (find id r.destination_actor_messages);
    only = refl;
  }
    where
      add_to_nil : (o : Option Messages) → o ≡ add_to o []
      add_to_nil none = refl
      add_to_nil (some old) = ap some (sym (L.append-nil old))

  pub not_due :
      (now : Timestamp) (a b : SentMessage)
      → is_due now a ≡ false
      → delivered_last a b ≡ false
      → is_due now b ≡ false
  unfolding delivered_last
  not_due now a b late above = ground arith

  -- One message goes to its inbox, and the loop goes on from there.
  module _ (r : Runtime Queue) (sent : SentMessage) (msgs : Messages)
      (first : top r.messages_queue ≡ some sent)
      (known : find sent.msg.destination r.destination_actor_messages ≡ some msgs) where
    abbrev after : Runtime Queue
    after = record r {
      destination_actor_messages =
          insert sent.msg.destination (msgs ++ sent.msg ∷ []) r.destination_actor_messages;
      messages_queue = pop r.messages_queue;
    }

    deliver_lem : deliver pq sent r ≡ ok after
    unfolding deliver
    deliver_lem = rw known

    mem_later :
        (m : SentMessage) → Mem m (items (pop r.messages_queue)) → Mem m (items r.messages_queue)
    mem_later m h =
        (Perm.mem_iff (items-pop sent r.messages_queue first)).1 (mem-cons_of_mem sent h)

    after-IsKnown : IsKnown r → IsKnown after
    after-IsKnown all m h = go (Bool-cases (m.msg.destination == sent.msg.destination))
      where
        old : (ms : Messages) × (find m.msg.destination r.destination_actor_messages ≡ some ms)
        old = all m (mem_later m h)

        now : find m.msg.destination after.destination_actor_messages ≡ (
            if m.msg.destination == sent.msg.destination
            then some (msgs ++ sent.msg ∷ [])
            else find m.msg.destination r.destination_actor_messages)
        now = find-insert m.msg.destination sent.msg.destination _ r.destination_actor_messages

        go :
            ((m.msg.destination == sent.msg.destination) ≡ true)
              ⊎ ((m.msg.destination == sent.msg.destination) ≡ false)
            → (ms : Messages) × (find m.msg.destination after.destination_actor_messages ≡ some ms)
        go (inl e) = (msgs ++ sent.msg ∷ [], now ∙ rw e)
        go (inr e) = (old.0, now ∙ rw e old.1)

    inbox_step :
        (id : ActorId) (taken : List SentMessage)
        → add_to (find id after.destination_actor_messages) (sent_to id taken)
          ≡ add_to (find id r.destination_actor_messages) (sent_to id (sent ∷ taken))
    unfolding sent_to
    inbox_step id taken =
        rw
          (find-insert id sent.msg.destination (msgs ++ sent.msg ∷ []) r.destination_actor_messages)
          (go (Bool-cases (id == sent.msg.destination)))
      where
        go :
            ((id == sent.msg.destination) ≡ true) ⊎ ((id == sent.msg.destination) ≡ false)
            → add_to
                (if id == sent.msg.destination
                  then some (msgs ++ sent.msg ∷ [])
                  else find id r.destination_actor_messages)
                (sent_to id taken)
              ≡ add_to (find id r.destination_actor_messages) (sent_to id (sent ∷ taken))
        go (inl e) =
            let same : id ≡ sent.msg.destination = (int_eq.same_iff id sent.msg.destination).0 e in
            let found : find id r.destination_actor_messages ≡ some msgs = rw same known in
            rw (e, found, append_assoc msgs (sent.msg ∷ []) (sent_to id taken))
        go (inr e) = rw e

    after-Delivered :
        (r' : Runtime Queue) → is_due r.timestamp sent ≡ true → Delivered after r' → Delivered r r'
    after-Delivered r' due d = record {
      taken = sent ∷ d.taken;
      from_queue = Perm.trans (items-pop sent r.messages_queue first) (Perm.cons sent d.from_queue);
      all_due = (due, d.all_due);
      none_left = d.none_left;
      in_order = (
        λ b h.
            top_first sent r.messages_queue first b
              (mem_later b ((Perm.mem_iff d.from_queue).1 (mem-append_left _ h))),
        d.in_order,
      );
      inboxes = λ id. d.inboxes id ∙ inbox_step id d.taken;
      only = d.only;
    }

  -- What a run of the loop comes to.
  abbrev Fills : ℕ → Runtime Queue → Type 0
  Fills n r = (r' : Runtime Queue) × (fill pq n r ≡ ok r') × Delivered r r'

  fill_late :
      (n : ℕ) (r : Runtime Queue) (sent : SentMessage)
      → top r.messages_queue ≡ some sent
      → is_due r.timestamp sent ≡ false
      → Fills (suc n) r
  unfolding fill
  fill_late n r sent first late = (
    r,
    rw (fill, first, late),
    fill_stop r (λ m h. not_due r.timestamp sent m late (top_first sent _ first m h)),
  )

  fill_due :
      (n : ℕ) (r : Runtime Queue) (sent : SentMessage) (msgs : Messages)
      (first : top r.messages_queue ≡ some sent)
      (found : find sent.msg.destination r.destination_actor_messages ≡ some msgs)
      → is_due r.timestamp sent ≡ true
      → Fills n (after r sent msgs first found)
      → Fills (suc n) r
  unfolding fill
  fill_due n r sent msgs first found due (r', done, d) = (
    r',
    rw (fill, first, due, deliver_lem r sent msgs first found) done,
    after-Delivered r sent msgs first found r' due d,
  )

  fill_empty : (n : ℕ) (r : Runtime Queue) → top r.messages_queue ≡ none → Fills (suc n) r
  unfolding fill
  fill_empty n r e = (
    r,
    rw (fill, e),
    fill_stop r (λ m h. absurd (not-mem-nil {a = m} (rw (← top_none r.messages_queue e) h))),
  )

  fill_lem :
      (n : ℕ) (r : Runtime Queue) → length (items r.messages_queue) < n → IsKnown r → Fills n r
  fill_lem zero r h known = absurd (omega arith)
  fill_lem (suc n) r h known = elim (Option-cases (top r.messages_queue)) [
    | inl e ↦ fill_empty n r e
    | inr (sent, first) ↦ elim (Bool-cases (is_due r.timestamp sent)) [
      | inr late ↦ fill_late n r sent first late
      | inl due ↦
          let (msgs, found) =
            known sent ((Perm.mem_iff (items-pop sent _ first)).1 mem-cons_self) in
          fill_due n r sent msgs first found due (
            fill_lem n (after r sent msgs first found) (omega (arith, length-pop sent _ first))
              (after-IsKnown r sent msgs first found known))
    ]
  ]

  -- In a runtime that knows the destination of every queued message the loop always ends without a
  -- fault. It takes exactly the messages that are due off the queue, in the queue's order, and puts
  -- each at the end of its destination's inbox. Nothing else of the runtime changes.
  pub fill_destination_actor_messages-Delivered :
      (r : Runtime Queue)
      → IsKnown r
      → (r' : Runtime Queue) × (fill_destination_actor_messages pq r ≡ ok r') × Delivered r r'
  unfolding fill_destination_actor_messages
  fill_destination_actor_messages-Delivered r known =
      fill_lem (suc (length (items r.messages_queue))) r (omega arith) known

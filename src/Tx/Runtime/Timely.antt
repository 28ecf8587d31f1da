-- ===== src/Tx/Runtime/Timely.antt =====
-- The rounds of Runtime::run: time goes on, and no message waits for more than one round.
use simple_db.Base.{
  ℕ, length, zero, suc, ◌≡◌, refl, sym, ap, ◌∙◌, Bool, true, false, ◌&&◌, List, [], ◌∷◌, ok, ◌>>=◌,
  >>=-eq-ok, arith, eqb_ℤ, eqb_ℤ_iff, ◌≤ℤ◌, ◌<ℤ◌, find, insert, int_eq, Bool-cases, Option-cases,
  inl, inr, Dict,
}
use mathlib.Core.Logic.Or
use mathlib.Core.Path.{subst}
use mathlib.Core.Bool.{Bool-set}
use mathlib.Core.List.{Mem, eq-or-mem_of_mem-cons, mem-cons_of_mem, not-mem-nil}
use mathlib.Core.List.Perm
use simple_db.Tx.Types.{Timestamp, TxId}
use simple_db.Tx.Clock.{current, next}
use simple_db.Tx.Msg.{Message, Messages, SentMessage, delivered_last}
use simple_db.Tx.Runtime.Queue.{PriorityQueue}
use simple_db.Tx.Runtime.Delivery.{is_due, not_due}
use simple_db.Tx.Runtime.{
  Actor, Runtime, on_tick, send, send_all, deliver, fill, fill_destination_actor_messages,
  pass_time, get_actor_id, inbox_of, clear_inboxes, tick_actor, tick_actors, send_to_actors,
  run_tick,
}
use simple_db.Tx.Runtime.Ticks.{≤ℤ_trans, next_le, next_lt, <ℤ_trans, <ℤ_of_ne, on_tick-le}

-- A message that was sent in the round of time `start`, and that is due at `now`.
abbrev is_recent : Timestamp → Timestamp → SentMessage → Bool
is_recent start now m = eqb_ℤ m.send_timestamp start && is_due now m

is_recent_later :
    (start now now' : Timestamp) (m : SentMessage)
    → now ≤ℤ now'
    → is_recent start now m ≡ true
    → is_recent start now' m ≡ true
is_recent_later start now now' m le e = ground arith

module _ (pq : PriorityQueue SentMessage delivered_last) where
  open pq use {Queue, push, top, pop, items, items-push, items-pop, top_none, top_first}

  -- Every message in the queue is due by the clock.
  abbrev pub IsTimely : Runtime Queue → Type 0
  IsTimely r =
      (m : SentMessage) → Mem m (items r.messages_queue) → is_due (current r.clock) m ≡ true

  -- What the delivery leaves in the queue is not due.
  record Left (r r' : Runtime Queue) : Type 0 where
    same_time : r'.timestamp ≡ r.timestamp
    same_clock : r'.clock ≡ r.clock
    left :
        (m : SentMessage)
        → Mem m (items r'.messages_queue)
        → Mem m (items r.messages_queue) × (is_due r.timestamp m ≡ false)

  deliver-pop :
      (sent : SentMessage) (r r' : Runtime Queue)
      → deliver pq sent r ≡ ok r'
      → (r'.timestamp ≡ r.timestamp)
        × (r'.clock ≡ r.clock)
        × (r'.messages_queue ≡ pop r.messages_queue)
  unfolding deliver
  deliver-pop sent r r' e =
      elim (Option-cases (find sent.msg.destination r.destination_actor_messages)) [
        | inl unknown ↦ ground arith
        | inr (msgs, known) ↦ ground arith
      ]

  fill-Left : (n : ℕ) (r r' : Runtime Queue) → fill pq n r ≡ ok r' → Left r r'
  unfolding fill
  fill-Left zero r r' e = cc
  fill-Left (suc n) r r' e = elim (Option-cases (top r.messages_queue)) [
    | inl none_there ↦
        let same : r' ≡ r = ground arith in
        rw same (record {
          same_time = refl;
          same_clock = refl;
          left =
              λ m h. absurd (not-mem-nil {a = m} (rw (← top_none r.messages_queue none_there) h));
        })
    | inr (sent, first) ↦ elim (Bool-cases (is_due r.timestamp sent)) [
      | inr late ↦
          let same : r' ≡ r = ground arith in
          rw same (record {
            same_time = refl;
            same_clock = refl;
            left = λ m h.
                (h, not_due pq r.timestamp sent m late (top_first sent r.messages_queue first m h));
          })
      | inl due ↦
          let run : (deliver pq sent r >>= fill pq n) ≡ ok r' = ground arith in
          let (mid, delivered, rest) = >>=-eq-ok (deliver pq sent r) (fill pq n) run in
          let (time, clock, queue) = deliver-pop sent r mid delivered in
          let l = fill-Left n mid r' rest in
          record {
            same_time = l.same_time ∙ time;
            same_clock = l.same_clock ∙ clock;
            left = λ m h.
                let (there, late) = l.left m h in
                (
                  (Perm.mem_iff (items-pop sent r.messages_queue first)).1
                      (mem-cons_of_mem sent (subst (λ q. Mem m (items q)) queue there)),
                  ap (λ t. is_due t m) (sym time) ∙ late,
                );
          }
    ]
  ]

  -- While the actors tick: the round's time stays, the clock goes forward from it, and the queue has
  -- messages of this round alone.
  record Sending (start : Timestamp) (r : Runtime Queue) : Type 0 where
    same_time : r.timestamp ≡ start
    later : start ≤ℤ current r.clock
    recent :
        (m : SentMessage)
        → Mem m (items r.messages_queue)
        → is_recent start (current r.clock) m ≡ true

  send-Sending :
      (start : Timestamp) (msg : Message) (r : Runtime Queue)
      → Sending start r
      → Sending start (send pq msg r)
  unfolding send
  send-Sending start msg r v = record {
    same_time = v.same_time;
    later = v.later;
    recent = λ m h.
        Or.elim (Bool-set _ _)
          (eq-or-mem_of_mem-cons ((Perm.mem_iff (items-push _ r.messages_queue)).0 h))
          (λ e. ap (is_recent start (current r.clock)) e ∙ ground (arith, v.same_time))
          (v.recent m);
  }

  send_all-Sending :
      (start : Timestamp) (msgs : Messages) (r : Runtime Queue)
      → Sending start r
      → Sending start (send_all pq msgs r)
  unfolding send_all
  send_all-Sending start [] r v = v
  send_all-Sending start (msg ∷ msgs) r v =
      send_all-Sending start msgs (send pq msg r) (send-Sending start msg r v)

module _ (order : Dict TxId Messages → List (TxId × Messages))
    (pq : PriorityQueue SentMessage delivered_last) where
  open pq use {Queue, items}

  tick_actor-Sending :
      (start : Timestamp) (actor : Actor) (r : Runtime Queue) (p : Actor × Runtime Queue)
      → tick_actor order pq actor r ≡ ok p
      → Sending pq start r
      → Sending pq start p.1
  unfolding tick_actor
  tick_actor-Sending start actor r p e v =
      let id = get_actor_id actor in
      let msgs = inbox_of (find id r.destination_actor_messages) in
      let (a, ticked, rest) = >>=-eq-ok (on_tick order msgs actor r.clock r.gen) _ e in
      let le = on_tick-le order msgs actor r.clock r.gen a ticked in
      let mid : Runtime Queue = record r {
        clock = a.1;
        gen = a.2;
        destination_actor_messages = insert id [] r.destination_actor_messages;
      } in
      let same : p.1 ≡ send_all pq a.3 mid = ground arith in
      rw same (
        send_all-Sending pq start a.3 mid (record {
          same_time = v.same_time;
          later = ≤ℤ_trans start (current r.clock) (current a.1) v.later le;
          recent = λ m h. is_recent_later start (current r.clock) (current a.1) m le (v.recent m h);
        }))

  tick_actors-Sending :
      (start : Timestamp) (actors : List Actor) (r : Runtime Queue) (p : List Actor × Runtime Queue)
      → tick_actors order pq actors r ≡ ok p
      → Sending pq start r
      → Sending pq start p.1
  unfolding tick_actors
  tick_actors-Sending start [] r p e v = let same : p.1 ≡ r = ground arith in rw same v
  tick_actors-Sending start (actor ∷ actors) r p e v =
      let (a, first, rest) = >>=-eq-ok (tick_actor order pq actor r) _ e in
      let (b, others, rest') = >>=-eq-ok (tick_actors order pq actors a.1) _ rest in
      let same : p.1 ≡ b.1 = ground arith in
      rw same
        (tick_actors-Sending start actors a.1 b others (tick_actor-Sending start actor r a first v))

  -- All messages were due, so the delivery leaves none.
  filled-Sending :
      (r filled : Runtime Queue)
      → IsTimely pq r
      → Left pq
          (record r {
            destination_actor_messages = clear_inboxes r.destination_actor_messages;
            timestamp = current r.clock;
          })
          filled
      → Sending pq (current r.clock) filled
  filled-Sending r filled timely l = record {
    same_time = l.same_time;
    later = rw l.same_clock (omega arith);
    recent = λ m h. let (there, late) = l.left m h in let due = timely m there in cc;
  }

  -- The end of the round.
  pass_time-Sending :
      (start : Timestamp) (r : Runtime Queue)
      → Sending pq start r
      → (start <ℤ current (pass_time pq r).clock)
        × ((m : SentMessage)
            → Mem m (items (pass_time pq r).messages_queue)
            → is_recent start (current (pass_time pq r).clock) m ≡ true)
  unfolding pass_time
  pass_time-Sending start r v = elim (Bool-cases (eqb_ℤ (current r.clock) r.timestamp)) [
    | inl same ↦
        let is : pass_time pq r
            ≡ record r { timestamp = (next r.clock).0; clock = (next r.clock).1 } =
          rw same in
        let on = next_lt r.clock in
        let le = next_le r.clock in
        rw is (
          <ℤ_trans start (current r.clock) (current (next r.clock).1) v.later on,
          λ m h.
              is_recent_later start (current r.clock) (current (next r.clock).1) m le
                (v.recent m h),
        )
    | inr on ↦
        let is : pass_time pq r ≡ r = rw on in
        rw is (<ℤ_of_ne start (current r.clock) v.later (rw (← v.same_time) on), v.recent)
  ]

  -- What one round comes to.
  pub record Passed (r r' : Runtime Queue) : Type 0 where
    pub time : current r.clock <ℤ current r'.clock
    pub timely : IsTimely pq r'
    pub sent_now :
        (m : SentMessage) → Mem m (items r'.messages_queue) → m.send_timestamp ≡ current r.clock

  -- A round that starts with a queue whose messages are all due, and ends without a fault, puts the
  -- clock forward and leaves no message in the queue but those that the actors sent in the round.
  -- They are all due in the next one.
  pub run_tick-Passed :
      (r r' : Runtime Queue) → IsTimely pq r → run_tick order pq r ≡ ok r' → Passed r r'
  unfolding run_tick send_to_actors fill_destination_actor_messages pass_time
  run_tick-Passed r r' timely e =
      let start = current r.clock in
      let r₀ : Runtime Queue = record r {
        destination_actor_messages = clear_inboxes r.destination_actor_messages;
        timestamp = start;
      } in
      let (filled, f, e₁) = >>=-eq-ok (fill_destination_actor_messages pq r₀) _ e in
      let l = fill-Left pq (suc (length (items r.messages_queue))) r₀ filled f in
      let (ticked, t, e₂) = >>=-eq-ok (send_to_actors order pq filled) _ e₁ in
      let (p, ran, e₃) = >>=-eq-ok (tick_actors order pq filled.actors filled) _ t in
      let v =
        tick_actors-Sending start filled.actors filled p ran (filled-Sending r filled timely l) in
      let same : ticked ≡ record p.1 { actors = p.0 } = ground arith in
      let last : r' ≡ pass_time pq ticked = ground arith in
      let w : Sending pq start ticked =
        rw same (record { same_time = v.same_time; later = v.later; recent = v.recent }) in
      let (on, recent) = pass_time-Sending start ticked w in
      rw last (record {
        time = on;
        timely = λ m h. let now = recent m h in ground arith;
        sent_now = λ m h. let now = recent m h in ground (arith, eqb_ℤ_iff m.send_timestamp start);
      })

-- ===== src/Tx/Client/Requests/Consistent.antt =====
-- Every call of the requests manager keeps its tables and counters in agreement.
use simple_db.Base.{
  ℕ, zero, suc, ◌+◌, ◌-◌, ◌≤◌, ◌<◌, ◌≡◌, refl, ap, ◌∙◌, sym, List, [], ◌∷◌, ◌++◌, some, ok, arith,
  length, length-set, get_elem?, set, find, insert, nat_eq, find-insert, Option-cases, inl, inr,
}
use mathlib.Core.List.{append_assoc, append-nil}
use native.Mathlib.Numerals.{add-one}
use simple_db.Tx.Types.{ActorId, TxId, MsgId, Timestamp, Key, Value}
use simple_db.Tx.Msg.{Message, Messages, MsgPayload, put, create_msg_put}
use simple_db.Tx.Retrier.{schedule}
use simple_db.Tx.Client.Requests.{
  Status, request_not_started, request_start, request_completed, RequestState, RequestsManager,
  Post, init, add_put, complete_at, complete_request, prepare_one, prepare_rounds, prepare_msg,
  completed_of,
}
use simple_db.Tx.Client.Requests.Count.{
  IsConsistent, Sent-le, Sent-append, Sent-get, Sent-set_completed, Sent-next, Sent-set_start,
  completed-append, completed-set_start, length-completed-set,
}

pub init-IsConsistent : IsConsistent init
unfolding completed_of find
init-IsConsistent = record { sent = tt; counted = refl; scheduled = λ id i e. cc }

-- A new put waits to be sent.
pub add_put-IsConsistent :
    (key : Key) (value : Value) (m : RequestsManager)
    → IsConsistent m
    → IsConsistent (add_put key value m)
unfolding add_put
add_put-IsConsistent key value m c = record {
  sent = Sent-append m.next_put m.puts_table_status _ refl c.sent;
  counted = ground (
    arith,
    completed-append m.puts_table_status
        (record { status = request_not_started; key = key; value = value }) refl,
    c.counted,
  );
  scheduled = c.scheduled;
}

complete_at-IsConsistent :
    (i : ℕ) (m : RequestsManager)
    → IsConsistent m
    → i < m.next_put
    → (m' : RequestsManager) × (complete_at i m ≡ ok m')
      × IsConsistent m'
      × (m.completed_puts ≤ m'.completed_puts)
unfolding complete_at
complete_at-IsConsistent i m c h =
    let (r, g) = Sent-get m.next_put i m.puts_table_status c.sent h in go r g r.status refl
  where
    go :
        (r : RequestState)
        → get_elem? m.puts_table_status i ≡ some r
        → (st : Status) → r.status ≡ st
        → (m' : RequestsManager) × (complete_at i m ≡ ok m')
          × IsConsistent m'
          × (m.completed_puts ≤ m'.completed_puts)
    go r g request_start e = (
      record m {
        puts_table_status = set m.puts_table_status i (record r { status = request_completed });
        completed_puts = m.completed_puts + 1;
      },
      ground arith,
      record {
        sent =
            Sent-set_completed m.next_put i m.puts_table_status
              (record r { status = request_completed }) c.sent h (λ n. cc);
        counted = omega (arith, length-completed-set m.puts_table_status i r g e, c.counted);
        scheduled = c.scheduled;
      },
      omega arith,
    )
    go r g _ e = (m, ground arith, c, omega arith)

-- A reply is always handled, and never counts down.
pub complete_request-IsConsistent :
    (id : MsgId) (m : RequestsManager)
    → IsConsistent m
    → (m' : RequestsManager) × (complete_request id m ≡ ok m')
      × IsConsistent m'
      × (m.completed_puts ≤ m'.completed_puts)
unfolding complete_request
complete_request-IsConsistent id m c = elim (Option-cases (find id m.table_scheduled_puts)) [
  | inl unknown ↦ (m, rw (unknown, complete_request), c, omega arith)
  | inr (i, e) ↦ rw (e, complete_request) (complete_at-IsConsistent i m c (c.scheduled id i e))
]

-- The puts that wait to be sent.
abbrev pub unsent : ℕ → List RequestState → List (Key × Value)
unsent zero [] = []
unsent zero (r ∷ rs) = (r.key, r.value) ∷ unsent zero rs
unsent (suc n) [] = []
unsent (suc n) (r ∷ rs) = unsent n rs

abbrev put_pair : MsgPayload → List (Key × Value)
put_pair (put p) = (p.key, p.value) ∷ []
put_pair _ = []

-- The puts that messages carry.
abbrev pub put_pairs : Messages → List (Key × Value)
put_pairs [] = []
put_pairs (msg ∷ msgs) = put_pair msg.payload ++ put_pairs msgs

unsent-set :
    (n : ℕ) (rs : List RequestState) (r r' : RequestState)
    → get_elem? rs n ≡ some r
    → unsent n rs ≡ (r.key, r.value) ∷ unsent (suc n) (set rs n r')
unsent-set zero [] r r' e = cc
unsent-set zero (x ∷ rs) r r' e = ground arith
unsent-set (suc n) [] r r' e = cc
unsent-set (suc n) (x ∷ rs) r r' e = unsent-set n rs r r' e

unsent_none : (n : ℕ) (rs : List RequestState) → length rs ≤ n → unsent n rs ≡ []
unsent_none zero [] h = refl
unsent_none zero (r ∷ rs) h = absurd (omega arith)
unsent_none (suc n) [] h = refl
unsent_none (suc n) (r ∷ rs) h = unsent_none n rs (omega arith)

-- What sending has done: every put is sent, and those that waited are in the retrier's queue, in
-- the order in which they were added.
pub record Prepared (m : RequestsManager) (post : Post) (m' : RequestsManager) (post' : Post)
    : Type 0 where
  pub consistent : IsConsistent m'
  pub all_sent : m'.next_put ≡ length m'.puts_table_status
  pub same_length : length m'.puts_table_status ≡ length m.puts_table_status
  pub same_completed : m'.completed_puts ≡ m.completed_puts
  pub msgs : Messages
  pub queued : post'.retrier.schedule_msgs ≡ post.retrier.schedule_msgs ++ msgs
  pub right : put_pairs msgs ≡ unsent m.next_put m.puts_table_status

module _ (client coordinator : ActorId) (txid : TxId) (ts : Timestamp) where
  prepare_one_lem :
      (m : RequestsManager) (post : Post)
      → IsConsistent m
      → m.next_put < length m.puts_table_status
      → (q : RequestsManager × Post) × (msg : Message) × (prepare_one client coordinator txid ts m
            post
          ≡ ok q)
        × IsConsistent q.0
        × (q.0.next_put ≡ m.next_put + 1)
        × (length q.0.puts_table_status ≡ length m.puts_table_status)
        × (q.0.completed_puts ≡ m.completed_puts)
        × (q.1.retrier.schedule_msgs ≡ post.retrier.schedule_msgs ++ msg ∷ [])
        × (put_pair msg.payload ++ unsent q.0.next_put q.0.puts_table_status
            ≡ unsent m.next_put m.puts_table_status)
  unfolding prepare_one schedule create_msg_put
  prepare_one_lem m post c h =
      let (r, g, fresh) = Sent-next m.next_put m.puts_table_status c.sent h in
      let made = create_msg_put client coordinator txid r.key r.value post.gen in
      let states = set m.puts_table_status m.next_put (record r { status = request_start }) in
      (
        (
          record m {
            puts_table_status = states;
            table_scheduled_puts = insert made.0.msg_id m.next_put m.table_scheduled_puts;
            next_put = m.next_put + 1;
          },
          record { gen = made.1; retrier = (schedule ts made.0 post.retrier).1 },
        ),
        made.0,
        ground arith,
        record {
          sent = rw add-one (
              Sent-set_start m.next_put m.puts_table_status (record r { status = request_start })
                c.sent h (λ n. cc));
          counted = rw (completed-set_start m.puts_table_status m.next_put r g fresh) c.counted;
          scheduled = λ id i e. ground (
            arith,
            find-insert id made.0.msg_id m.next_put m.table_scheduled_puts,
            c.scheduled id i,
          );
        },
        refl,
        length-set m.puts_table_status m.next_put _,
        refl,
        refl,
        rw add-one (
            sym (
              unsent-set m.next_put m.puts_table_status r (record r { status = request_start }) g)),
      )

  prepare_rounds-Prepared :
      (n : ℕ) (m : RequestsManager) (post : Post)
      → IsConsistent m
      → m.next_put + n ≡ length m.puts_table_status
      → (q : RequestsManager × Post) × (prepare_rounds n client coordinator txid ts m post ≡ ok q)
        × Prepared m post q.0 q.1
  unfolding prepare_rounds
  prepare_rounds-Prepared zero m post c e = (
    (m, post),
    refl,
    record {
      consistent = c;
      all_sent = omega arith;
      same_length = refl;
      same_completed = refl;
      msgs = [];
      queued = sym (append-nil _);
      right = sym (unsent_none m.next_put m.puts_table_status (omega arith));
    },
  )
  prepare_rounds-Prepared (suc n) m post c e =
      let (p, msg, done, c', at, len, comp, queue, pair) = prepare_one_lem m post c (omega arith) in
      let (q, ran, rest) = prepare_rounds-Prepared n p.0 p.1 c' (omega arith) in
      (
        q,
        ground arith,
        record {
          consistent = rest.consistent;
          all_sent = rest.all_sent;
          same_length = rest.same_length ∙ len;
          same_completed = rest.same_completed ∙ comp;
          msgs = msg ∷ rest.msgs;
          queued =
              rest.queued
              ∙ ap (λ l. l ++ rest.msgs) queue
              ∙ append_assoc post.retrier.schedule_msgs (msg ∷ []) rest.msgs;
          right = ap (λ l. put_pair msg.payload ++ l) rest.right ∙ pair;
        },
      )

  -- Sending never fails. It leaves no put unsent, and puts exactly those that waited into the
  -- retrier's queue, in the order in which they were added.
  pub prepare_msg-Prepared :
      (m : RequestsManager) (post : Post)
      → IsConsistent m
      → (q : RequestsManager × Post) × (prepare_msg client coordinator txid ts m post ≡ ok q)
        × Prepared m post q.0 q.1
  unfolding prepare_msg
  prepare_msg-Prepared m post c =
      prepare_rounds-Prepared (length m.puts_table_status - m.next_put) m post c
        (omega (arith, Sent-le m.next_put m.puts_table_status c.sent))

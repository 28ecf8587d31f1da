-- ===== src/Tx/Client/Requests/Count.antt =====
-- The tables and counters of the requests manager agree, whatever calls it gets.
use simple_db.Base.{
  ℕ, zero, suc, ◌+◌, ◌≤◌, ◌<◌, ◌≡◌, ◌≢◌, refl, List, [], ◌∷◌, ◌++◌, some, arith, length, get_elem?,
  set, find, nat_eq,
}
use simple_db.Tx.Types.{MsgId}
use simple_db.Tx.Client.Requests.{
  request_not_started, request_start, request_completed, RequestState, RequestsManager,
  completed_of,
}

-- The first `n` requests have been sent, and no later one.
abbrev pub Sent : ℕ → List RequestState → Type 0
Sent zero [] = Unit
Sent zero (r ∷ rs) = (r.status ≡ request_not_started) × Sent zero rs
Sent (suc n) [] = ⊥
Sent (suc n) (r ∷ rs) = (r.status ≢ request_not_started) × Sent n rs

pub record IsConsistent (m : RequestsManager) : Type 0 where
  pub sent : Sent m.next_put m.puts_table_status
  pub counted : length (completed_of m.puts_table_status) ≡ m.completed_puts
  pub scheduled : (id : MsgId) (i : ℕ) → find id m.table_scheduled_puts ≡ some i → i < m.next_put

pub Sent-le : (n : ℕ) (rs : List RequestState) → Sent n rs → n ≤ length rs
Sent-le zero rs s = omega arith
Sent-le (suc n) [] s = absurd s
Sent-le (suc n) (r ∷ rs) s = omega (arith, Sent-le n rs s.1)

pub Sent-append :
    (n : ℕ) (rs : List RequestState) (r : RequestState)
    → r.status ≡ request_not_started
    → Sent n rs
    → Sent n (rs ++ r ∷ [])
Sent-append zero [] r e s = (e, tt)
Sent-append zero (x ∷ rs) r e s = (s.0, Sent-append zero rs r e s.1)
Sent-append (suc n) [] r e s = absurd s
Sent-append (suc n) (x ∷ rs) r e s = (s.0, Sent-append n rs r e s.1)

pub Sent-get :
    (n i : ℕ) (rs : List RequestState)
    → Sent n rs
    → i < n
    → (r : RequestState) × (get_elem? rs i ≡ some r)
Sent-get zero i rs s h = absurd (omega arith)
Sent-get (suc n) i [] s h = absurd s
Sent-get (suc n) zero (r ∷ rs) s h = (r, refl)
Sent-get (suc n) (suc i) (r ∷ rs) s h = Sent-get n i rs s.1 (omega arith)

pub Sent-set_completed :
    (n i : ℕ) (rs : List RequestState) (r : RequestState)
    → Sent n rs
    → i < n
    → r.status ≢ request_not_started
    → Sent n (set rs i r)
Sent-set_completed zero i rs r s h e = absurd (omega arith)
Sent-set_completed (suc n) i [] r s h e = absurd s
Sent-set_completed (suc n) zero (x ∷ rs) r s h e = (e, s.1)
Sent-set_completed (suc n) (suc i) (x ∷ rs) r s h e =
    (s.0, Sent-set_completed n i rs r s.1 (omega arith) e)

-- The next request to send has not been started.
pub Sent-next :
    (n : ℕ) (rs : List RequestState)
    → Sent n rs
    → n < length rs
    → (r : RequestState) × (get_elem? rs n ≡ some r) × (r.status ≡ request_not_started)
Sent-next zero [] s h = absurd (omega arith)
Sent-next zero (r ∷ rs) s h = (r, refl, s.0)
Sent-next (suc n) [] s h = absurd s
Sent-next (suc n) (r ∷ rs) s h = Sent-next n rs s.1 (omega arith)

pub Sent-set_start :
    (n : ℕ) (rs : List RequestState) (r : RequestState)
    → Sent n rs
    → n < length rs
    → r.status ≢ request_not_started
    → Sent (suc n) (set rs n r)
Sent-set_start zero [] r s h e = absurd (omega arith)
Sent-set_start zero (x ∷ rs) r s h e = (e, s.1)
Sent-set_start (suc n) [] r s h e = absurd s
Sent-set_start (suc n) (x ∷ rs) r s h e = (s.0, Sent-set_start n rs r s.1 (omega arith) e)

pub completed-append :
    (rs : List RequestState) (r : RequestState)
    → r.status ≡ request_not_started
    → completed_of (rs ++ r ∷ []) ≡ completed_of rs
unfolding completed_of
completed-append [] r e = ground arith
completed-append (x ∷ rs) r e = ground (arith, completed-append rs r e)

pub completed-set_start :
    (rs : List RequestState) (i : ℕ) (r : RequestState)
    → get_elem? rs i ≡ some r
    → r.status ≡ request_not_started
    → completed_of (set rs i (record r { status = request_start })) ≡ completed_of rs
unfolding completed_of
completed-set_start [] i r g e = cc
completed-set_start (x ∷ rs) zero r g e = ground arith
completed-set_start (x ∷ rs) (suc i) r g e = ground (arith, completed-set_start rs i r g e)

pub length-completed-set :
    (rs : List RequestState) (i : ℕ) (r : RequestState)
    → get_elem? rs i ≡ some r
    → r.status ≡ request_start
    → length (completed_of (set rs i (record r { status = request_completed })))
      ≡ length (completed_of rs) + 1
unfolding completed_of
length-completed-set [] i r g e = cc
length-completed-set (x ∷ rs) zero r g e = ground arith
length-completed-set (x ∷ rs) (suc i) r g e = ground (arith, length-completed-set rs i r g e)

-- ===== src/Tx/Client/Requests/Exported.antt =====
-- RequestsManager::export_results, after any calls of the manager.
use simple_db.Base.{
  ℕ, zero, suc, ◌≤◌, ◌≡◌, refl, sym, ap, ◌∙◌, List, [], ◌∷◌, ◌++◌, some, Result, ok, or_fail,
  out_of_range, on_ok, arith, length, get_elem?, set, find, nat_eq, Option-cases, inl, inr,
}
use mathlib.Core.Path.{subst}
use simple_db.Tx.Types.{ActorId, TxId, MsgId, Timestamp, Key, Value}
use simple_db.Tx.Client.Requests.{
  Status, request_not_started, request_start, request_completed, RequestState, RequestsManager,
  Post, init, add_put, complete_at, complete_request, prepare_one, prepare_rounds, prepare_msg,
  completed_of, export_results,
}
use simple_db.Tx.Client.Requests.Count.{IsConsistent}
use simple_db.Tx.Client.Requests.Consistent.{
  init-IsConsistent, add_put-IsConsistent, complete_request-IsConsistent, prepare_msg-Prepared,
}

-- The states of a manager that has got these puts, in this order, and whatever else: puts are sent
-- at any time, and replies have any message id.
pub data Reached : List (Key × Value) → RequestsManager → Type 0 where
  start : Reached [] init
  adding :
      {added : List (Key × Value)} {m : RequestsManager} (key : Key) (value : Value)
      → Reached added m
      → Reached (added ++ (key, value) ∷ []) (add_put key value m)
  sending :
      {added : List (Key × Value)} {m m' : RequestsManager} (client coordinator : ActorId)
      (txid : TxId) (ts : Timestamp) (post post' : Post)
      → Reached added m
      → prepare_msg client coordinator txid ts m post ≡ ok (m', post')
      → Reached added m'
  answered :
      {added : List (Key × Value)} {m m' : RequestsManager} (id : MsgId)
      → Reached added m
      → complete_request id m ≡ ok m'
      → Reached added m'

abbrev pairs : List RequestState → List (Key × Value)
pairs [] = []
pairs (r ∷ rs) = (r.key, r.value) ∷ pairs rs

pairs-append :
    (rs : List RequestState) (r : RequestState)
    → pairs (rs ++ r ∷ []) ≡ pairs rs ++ (r.key, r.value) ∷ []
pairs-append [] r = refl
pairs-append (x ∷ rs) r = ap (λ l. (x.key, x.value) ∷ l) (pairs-append rs r)

-- The status is no part of the pair.
pairs-set :
    (rs : List RequestState) (i : ℕ) (r : RequestState) (st : Status)
    → get_elem? rs i ≡ some r
    → pairs (set rs i (record r { status = st })) ≡ pairs rs
pairs-set [] i r st e = cc
pairs-set (x ∷ rs) zero r st e =
    let same : x ≡ r = cc in ap (λ (y : RequestState). (y.key, y.value) ∷ pairs rs) (sym same)
pairs-set (x ∷ rs) (suc i) r st e = ap (λ l. (x.key, x.value) ∷ l) (pairs-set rs i r st e)

module _ (client coordinator : ActorId) (txid : TxId) (ts : Timestamp) where
  prepare_one-pairs :
      (m : RequestsManager) (post : Post) (q : RequestsManager × Post)
      → prepare_one client coordinator txid ts m post ≡ ok q
      → pairs q.0.puts_table_status ≡ pairs m.puts_table_status
  unfolding prepare_one
  prepare_one-pairs m post q e =
      on_ok (or_fail (get_elem? m.puts_table_status m.next_put) out_of_range) _ e λ r got done.
        let at : get_elem? m.puts_table_status m.next_put ≡ some r = ground arith in
        let same : set m.puts_table_status m.next_put (record r { status = request_start })
            ≡ q.0.puts_table_status =
          cc in
        ap pairs (sym same) ∙ pairs-set m.puts_table_status m.next_put r request_start at

  prepare_rounds-pairs :
      (n : ℕ) (m : RequestsManager) (post : Post) (q : RequestsManager × Post)
      → prepare_rounds n client coordinator txid ts m post ≡ ok q
      → pairs q.0.puts_table_status ≡ pairs m.puts_table_status
  unfolding prepare_rounds
  prepare_rounds-pairs zero m post q e =
      let same : (m, post) ≡ q = cc in
      ap (λ (p : RequestsManager × Post). pairs p.0.puts_table_status) (sym same)
  prepare_rounds-pairs (suc n) m post q e =
      on_ok (prepare_one client coordinator txid ts m post) _ e
        λ p first others. prepare_rounds-pairs n p.0 p.1 q others ∙ prepare_one-pairs m post p first

  prepare_msg-pairs :
      (m : RequestsManager) (post : Post) (q : RequestsManager × Post)
      → prepare_msg client coordinator txid ts m post ≡ ok q
      → pairs q.0.puts_table_status ≡ pairs m.puts_table_status
  unfolding prepare_msg
  prepare_msg-pairs m post q e = prepare_rounds-pairs _ m post q e

by_status :
    (st : Status) (m c m' : RequestsManager) (l : List (Key × Value))
    → pairs m.puts_table_status ≡ l
    → pairs c.puts_table_status ≡ l
    → ◌≡◌ {A = Result RequestsManager}
        (ok (elim st as (λ k. RequestsManager) [
          | request_not_started ↦ m
          | request_start ↦ c
          | request_completed ↦ m
        ]))
        (ok m')
    → pairs m'.puts_table_status ≡ l
by_status request_start m c m' l e e' h =
    let same : c ≡ m' = cc in
    ap (λ (x : RequestsManager). pairs x.puts_table_status) (sym same) ∙ e'
by_status request_not_started m c m' l e e' h =
    let same : m ≡ m' = cc in ap (λ (x : RequestsManager). pairs x.puts_table_status) (sym same) ∙ e
by_status request_completed m c m' l e e' h =
    let same : m ≡ m' = cc in ap (λ (x : RequestsManager). pairs x.puts_table_status) (sym same) ∙ e

complete_at-pairs :
    (i : ℕ) (m m' : RequestsManager)
    → complete_at i m ≡ ok m'
    → pairs m'.puts_table_status ≡ pairs m.puts_table_status
unfolding complete_at
complete_at-pairs i m m' e =
    on_ok (or_fail (get_elem? m.puts_table_status i) out_of_range) _ e λ r got done.
      let at : get_elem? m.puts_table_status i ≡ some r = ground arith in
      by_status r.status m _ m' (pairs m.puts_table_status) refl
        (pairs-set m.puts_table_status i r request_completed at) done

complete_request-pairs :
    (id : MsgId) (m m' : RequestsManager)
    → complete_request id m ≡ ok m'
    → pairs m'.puts_table_status ≡ pairs m.puts_table_status
unfolding complete_request
complete_request-pairs id m m' e = elim (Option-cases (find id m.table_scheduled_puts)) [
  | inl unknown ↦
      let same : m ≡ m' = ground arith in
      ap (λ (x : RequestsManager). pairs x.puts_table_status) (sym same)
  | inr (i, known) ↦ complete_at-pairs i m m' (ground arith)
]

Reached-IsConsistent :
    {added : List (Key × Value)} {m : RequestsManager}
    → Reached added m
    → IsConsistent m × (pairs m.puts_table_status ≡ added)
unfolding add_put
Reached-IsConsistent start = (init-IsConsistent, refl)
Reached-IsConsistent (adding {m} key value reached) =
    let (c, same) = Reached-IsConsistent reached in
    (
      add_put-IsConsistent key value m c,
      pairs-append m.puts_table_status _ ∙ ap (λ l. l ++ (key, value) ∷ []) same,
    )
Reached-IsConsistent (sending {m} {m'} client coordinator txid ts post post' reached run) =
    let (c, same) = Reached-IsConsistent reached in
    let (q, run', prepared) = prepare_msg-Prepared client coordinator txid ts m post c in
    let end : q.0 ≡ m' = cc in
    (
      subst IsConsistent end prepared.consistent,
      prepare_msg-pairs client coordinator txid ts m post (m', post') run ∙ same,
    )
Reached-IsConsistent (answered {m} {m'} id reached run) =
    let (c, same) = Reached-IsConsistent reached in
    let (m₁, run', c', up) = complete_request-IsConsistent id m c in
    let end : m₁ ≡ m' = cc in (subst IsConsistent end c', complete_request-pairs id m m' run ∙ same)

completed-le : (rs : List RequestState) → length (completed_of rs) ≤ length rs
unfolding completed_of
completed-le [] = omega arith
completed-le (r ∷ rs) = ground (arith, completed-le rs)

completed_all :
    (rs : List RequestState) → length (completed_of rs) ≡ length rs → completed_of rs ≡ pairs rs
unfolding completed_of
completed_all [] h = refl
completed_all (r ∷ rs) h = ground (arith, completed-le rs, completed_all rs)

length-pairs : (rs : List RequestState) → length (pairs rs) ≡ length rs
length-pairs [] = refl
length-pairs (r ∷ rs) = ap suc (length-pairs rs)

-- After any calls, once the counter of completed puts has reached the number of puts that were added,
-- every put is exported, in the order of their additions, behind what the vector had before.
pub export_results-Reached :
    {added : List (Key × Value)} {m : RequestsManager}
    → Reached added m
    → (puts : List (Key × Value)) → m.completed_puts ≡ length added
    → export_results m puts ≡ puts ++ added
unfolding export_results
export_results-Reached {m} reached puts all =
    let (c, same) = Reached-IsConsistent reached in
    let full : length (completed_of m.puts_table_status) ≡ length m.puts_table_status =
      c.counted ∙ all ∙ ap length (sym same) ∙ length-pairs m.puts_table_status in
    ap (λ l. puts ++ l) (completed_all m.puts_table_status full ∙ same)

-- ===== src/Tx/Msg/Equal.antt =====
-- The operators == and < of src/tx/msg, against equality.
use simple_db.Base.{
  ℕ, ℤ, ◌≡◌, ◌↔◌, refl, sym, ◌∙◌, ap, Bool, true, false, ◌&&◌, arith, eqb, eqb_iff, eqb_ℤ,
  eqb_ℤ_iff,
}
use simple_db.Tx.Msg.Types.{
  MsgPayload, start, ack_start, put, put_reply, commit, commit_ack, rolled_back_by_server,
  eq_payload,
}
use simple_db.Tx.Msg.Header.{MessageType, code_of, Message, eq_message}

eqb_ℤ→eq : (a b : ℤ) → eqb_ℤ a b ≡ true → a ≡ b
eqb_ℤ→eq a b = (eqb_ℤ_iff a b).0

and-true : (a b : Bool) → (a && b) ≡ true → (a ≡ true) × (b ≡ true)
and-true true b e = (refl, e)
and-true false b e = cc

eqb_refl : (n : ℕ) → eqb n n ≡ true
eqb_refl n = ground arith

eqb_ℤ_refl : (a : ℤ) → eqb_ℤ a a ≡ true
eqb_ℤ_refl a = (eqb_ℤ_iff a a).1 refl

eq_payload_refl : (p : MsgPayload) → eq_payload p p ≡ true
eq_payload_refl (start a) = rw (eqb_ℤ_refl a.txid, eqb_ℤ_refl a.read_ts)
eq_payload_refl (ack_start a) = rw (eqb_ℤ_refl a.txid, eqb_ℤ_refl a.read_ts)
eq_payload_refl (put a) = rw (eqb_ℤ_refl a.txid, eqb_ℤ_refl a.key, eqb_ℤ_refl a.value)
eq_payload_refl (put_reply a) = rw (eqb_ℤ_refl a.txid, eqb_refl a.msg_id)
eq_payload_refl (commit a) = eqb_ℤ_refl a.txid
eq_payload_refl (commit_ack a) = rw (eqb_ℤ_refl a.txid, eqb_ℤ_refl a.commit_ts)
eq_payload_refl (rolled_back_by_server a) = rw (eqb_ℤ_refl a.txid, eqb_ℤ_refl a.conflict_txid)

eq_payload→eq : (p q : MsgPayload) → eq_payload p q ≡ true → p ≡ q
eq_payload→eq (start a) (start b) e =
    let (x, y) = and-true (eqb_ℤ a.txid b.txid) _ e in
    let x' = eqb_ℤ→eq a.txid b.txid x in let y' = eqb_ℤ→eq a.read_ts b.read_ts y in cc
eq_payload→eq (ack_start a) (ack_start b) e =
    let (x, y) = and-true (eqb_ℤ a.txid b.txid) _ e in
    let x' = eqb_ℤ→eq a.txid b.txid x in let y' = eqb_ℤ→eq a.read_ts b.read_ts y in cc
eq_payload→eq (put a) (put b) e =
    let (x, r) = and-true (eqb_ℤ a.txid b.txid) _ e in
    let (y, z) = and-true (eqb_ℤ a.key b.key) _ r in
    let x' = eqb_ℤ→eq a.txid b.txid x in
    let y' = eqb_ℤ→eq a.key b.key y in let z' = eqb_ℤ→eq a.value b.value z in cc
eq_payload→eq (put_reply a) (put_reply b) e =
    let (x, y) = and-true (eqb_ℤ a.txid b.txid) _ e in
    let x' = eqb_ℤ→eq a.txid b.txid x in let y' = (eqb_iff a.msg_id b.msg_id).0 y in cc
eq_payload→eq (commit a) (commit b) e = let x' = eqb_ℤ→eq a.txid b.txid e in cc
eq_payload→eq (commit_ack a) (commit_ack b) e =
    let (x, y) = and-true (eqb_ℤ a.txid b.txid) _ e in
    let x' = eqb_ℤ→eq a.txid b.txid x in let y' = eqb_ℤ→eq a.commit_ts b.commit_ts y in cc
eq_payload→eq (rolled_back_by_server a) (rolled_back_by_server b) e =
    let (x, y) = and-true (eqb_ℤ a.txid b.txid) _ e in
    let x' = eqb_ℤ→eq a.txid b.txid x in let y' = eqb_ℤ→eq a.conflict_txid b.conflict_txid y in cc
eq_payload→eq p q e = cc

type_of_code : (a b : MessageType) → code_of a ≡ code_of b → a ≡ b
type_of_code a b e = ground arith

eq_message→eq : (a b : Message) → eq_message a b ≡ true → a ≡ b
unfolding eq_message
eq_message→eq a b e =
    let (x, e₁) = and-true (eqb a.msg_id b.msg_id) _ e in
    let (y, e₂) = and-true (eqb (code_of a.type) (code_of b.type)) _ e₁ in
    let (z, e₃) = and-true (eqb_ℤ a.source b.source) _ e₂ in
    let (v, w) = and-true (eqb_ℤ a.destination b.destination) _ e₃ in
    let x' = (eqb_iff a.msg_id b.msg_id).0 x in
    let y' = type_of_code a.type b.type ((eqb_iff (code_of a.type) (code_of b.type)).0 y) in
    let z' = eqb_ℤ→eq a.source b.source z in
    let v' = eqb_ℤ→eq a.destination b.destination v in
    let w' = eq_payload→eq a.payload b.payload w in cc

-- The operator == of messages, and with it those of all payloads, is equality.
pub eq_message_iff : (a b : Message) → (eq_message a b ≡ true) ↔ (a ≡ b)
unfolding eq_message
eq_message_iff a b = (eq_message→eq a b, λ e. ap (eq_message a) (sym e) ∙ self)
  where
    self : eq_message a a ≡ true
    self = rw (
      eqb_refl a.msg_id,
      eqb_refl (code_of a.type),
      eqb_ℤ_refl a.source,
      eqb_ℤ_refl a.destination,
      eq_payload_refl a.payload,
    )

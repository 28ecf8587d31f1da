-- ===== src/Tx/Msg/Order.antt =====
-- The operator < of messages, message.cpp.
use simple_db.Base.{
  ℕ, ℤ, ◌<◌, ◌<ℤ◌, ◌≡◌, Bool, true, false, arith, ltb, ltb_ℤ, eqb_ℤ_iff, sym, ap, ◌⊎◌, inl, inr,
  Bool-cases,
}
use simple_db.Tx.Msg.Header.{Message, MessageType, code_of, lt_message}

-- The first field in which two messages differ decides which is before the other. The type counts by
-- its code.
pub data Before (a b : Message) : Type 0 where
  by_type : code_of a.type < code_of b.type → Before a b
  by_id : a.type ≡ b.type → a.msg_id < b.msg_id → Before a b
  by_source : a.type ≡ b.type → a.msg_id ≡ b.msg_id → a.source <ℤ b.source → Before a b
  by_destination :
      a.type ≡ b.type
      → a.msg_id ≡ b.msg_id
      → a.source ≡ b.source
      → a.destination <ℤ b.destination
      → Before a b

-- What the tests `a < b` and `b < a` answer.
pub data Compared (a b : Message) : Bool → Bool → Type 0 where
  less : Before a b → Compared a b true false
  greater : Before b a → Compared a b false true
  level :
      a.type ≡ b.type
      → a.msg_id ≡ b.msg_id
      → a.source ≡ b.source
      → a.destination ≡ b.destination
      → Compared a b false false

code_injective : (t u : MessageType) → code_of t ≡ code_of u → t ≡ u
code_injective t u e = ground arith

nat_cases : (m n : ℕ) → (m < n) ⊎ ((n < m) ⊎ (m ≡ n))
nat_cases m n = elim (Bool-cases (ltb m n)) [
  | inl e ↦ inl (ground arith)
  | inr e ↦
      inr
        (elim (Bool-cases (ltb n m)) [ inl e' ↦ inl (ground arith) | inr e' ↦ inr (ground arith) ])
]

int_cases : (m n : ℤ) → (m <ℤ n) ⊎ ((n <ℤ m) ⊎ (m ≡ n))
int_cases m n = elim (Bool-cases (ltb_ℤ m n)) [
  | inl e ↦ inl (ground arith)
  | inr e ↦ inr (elim (Bool-cases (ltb_ℤ n m)) [
    | inl e' ↦ inl (ground arith)
    | inr e' ↦ inr ((eqb_ℤ_iff m n).0 (ground arith))
  ])
]

Before-less : {a b : Message} → Before a b → lt_message a b ≡ true
unfolding lt_message
Before-less (by_type h) = ground arith
Before-less (by_id t h) = let c = ap code_of t in ground arith
Before-less (by_source t i h) = let c = ap code_of t in ground arith
Before-less (by_destination t i s h) = let c = ap code_of t in ground arith

Before-greater : {a b : Message} → Before a b → lt_message b a ≡ false
unfolding lt_message
Before-greater (by_type h) = ground arith
Before-greater (by_id t h) = let c = ap code_of t in ground arith
Before-greater (by_source t i h) = let c = ap code_of t in ground arith
Before-greater (by_destination t i s h) = let c = ap code_of t in ground arith

level_lem :
    (a b : Message)
    → a.type ≡ b.type
    → a.msg_id ≡ b.msg_id
    → a.source ≡ b.source
    → a.destination ≡ b.destination
    → lt_message a b ≡ false
unfolding lt_message
level_lem a b t i s d = let c = ap code_of t in ground arith

less_lem : (a b : Message) → Before a b → Compared a b (lt_message a b) (lt_message b a)
less_lem a b h = rw (Before-less h, Before-greater h) (less h)

greater_lem : (a b : Message) → Before b a → Compared a b (lt_message a b) (lt_message b a)
greater_lem a b h = rw (Before-less h, Before-greater h) (greater h)

-- Of two messages, the one with the lower code of its type, then the lower id, then the lower source,
-- then the lower destination is before the other, as both calls of the operator answer. Neither is
-- before the other exactly if all four fields are equal.
pub lt_message-Compared : (a b : Message) → Compared a b (lt_message a b) (lt_message b a)
lt_message-Compared a b = elim (nat_cases (code_of a.type) (code_of b.type)) [
  | inl h ↦ less_lem a b (by_type h)
  | inr (inl h) ↦ greater_lem a b (by_type h)
  | inr (inr c) ↦
      let t = code_injective a.type b.type c in
      elim (nat_cases a.msg_id b.msg_id) [
        | inl h ↦ less_lem a b (by_id t h)
        | inr (inl h) ↦ greater_lem a b (by_id (sym t) h)
        | inr (inr i) ↦ elim (int_cases a.source b.source) [
          | inl h ↦ less_lem a b (by_source t i h)
          | inr (inl h) ↦ greater_lem a b (by_source (sym t) (sym i) h)
          | inr (inr s) ↦ elim (int_cases a.destination b.destination) [
            | inl h ↦ less_lem a b (by_destination t i s h)
            | inr (inl h) ↦ greater_lem a b (by_destination (sym t) (sym i) (sym s) h)
            | inr (inr d) ↦
                rw (level_lem a b t i s d, level_lem b a (sym t) (sym i) (sym s) (sym d))
                  (level t i s d)
          ]
        ]
      ]
]

-- ===== src/Tests/Queue.antt =====
-- A list as the queue of the runtime: the message that is delivered first is looked for at each use.
use simple_db.Base.{◌≡◌, refl, Bool, true, false, List, [], ◌∷◌, Option, none, some, arith}
use mathlib.Core.Path.{subst, sym}
use mathlib.Core.Logic.Or
use mathlib.Core.Bool.{Bool-set}
use mathlib.Core.List.{Mem, Perm, eq-or-mem_of_mem-cons, not-mem-nil}
use mathlib.Core.List.Perm
use simple_db.Tx.Msg.{SentMessage, delivered_last}
use simple_db.Tx.Runtime.Queue.{PriorityQueue}

abbrev pub Sent : Type 0
Sent = List SentMessage

abbrev choose_by : Bool → SentMessage → SentMessage × Sent → SentMessage × Sent
choose_by true x (m, rest) = (x, m ∷ rest)
choose_by false x (m, rest) = (m, x ∷ rest)

abbrev choose : SentMessage → SentMessage × Sent → SentMessage × Sent
choose x p = choose_by (delivered_last p.0 x) x p

-- The message of `a ∷ xs` that comes first, and the others.
abbrev pick : SentMessage → Sent → SentMessage × Sent
pick a [] = (a, [])
pick a (x ∷ xs) = choose x (pick a xs)

abbrev head_of : Sent → Option SentMessage
head_of [] = none
head_of (a ∷ xs) = some (pick a xs).0

abbrev tail_of : Sent → Sent
tail_of [] = []
tail_of (a ∷ xs) = (pick a xs).1

choose_by-Perm :
    (b : Bool) (x : SentMessage) (p : SentMessage × Sent)
    → Perm (x ∷ p.0 ∷ p.1) ((choose_by b x p).0 ∷ (choose_by b x p).1)
choose_by-Perm true x (m, rest) = Perm.rfl
choose_by-Perm false x (m, rest) = Perm.swap m x rest

pick-Perm : (a : SentMessage) (xs : Sent) → Perm (a ∷ xs) ((pick a xs).0 ∷ (pick a xs).1)
pick-Perm a [] = Perm.rfl
pick-Perm a (x ∷ xs) = Perm.trans (Perm.swap x a xs) (
    Perm.trans (Perm.cons x (pick-Perm a xs))
      (choose_by-Perm (delivered_last (pick a xs).0 x) x (pick a xs)))

abbrev First : SentMessage → Sent → Type 0
First m xs = (b : SentMessage) → Mem b xs → delivered_last m b ≡ false

delivered_last_self : (a : SentMessage) → delivered_last a a ≡ false
unfolding delivered_last
delivered_last_self a = ground arith

delivered_last_both : (m x : SentMessage) → delivered_last m x ≡ true → delivered_last x m ≡ false
unfolding delivered_last
delivered_last_both m x h = ground arith

delivered_last_trans :
    (m x b : SentMessage)
    → delivered_last m x ≡ true
    → delivered_last m b ≡ false
    → delivered_last x b ≡ false
unfolding delivered_last
delivered_last_trans m x b h k = ground arith

First-cons :
    (m x : SentMessage) (xs : Sent) → delivered_last m x ≡ false → First m xs → First m (x ∷ xs)
First-cons m x xs h f b mem =
    Or.elim (Bool-set _ _) (eq-or-mem_of_mem-cons mem)
      (λ e. subst (λ c. delivered_last m c ≡ false) (sym e) h) (f b)

choose-First :
    (b : Bool) (x : SentMessage) (p : SentMessage × Sent) (xs : Sent)
    → delivered_last p.0 x ≡ b
    → First p.0 xs
    → First (choose_by b x p).0 (x ∷ xs)
choose-First true x (m, rest) xs h f =
    First-cons x x xs (delivered_last_self x) (λ b mem. delivered_last_trans m x b h (f b mem))
choose-First false x (m, rest) xs h f = First-cons m x xs h f

pick-First : (a : SentMessage) (xs : Sent) → First (pick a xs).0 (a ∷ xs)
pick-First a [] = First-cons a a [] (delivered_last_self a) (λ b mem. absurd (not-mem-nil mem))
pick-First a (x ∷ xs) = λ b mem.
    choose-First (delivered_last (pick a xs).0 x) x (pick a xs) (a ∷ xs) refl (pick-First a xs) b
      ((Perm.mem_iff (Perm.swap x a xs)).0 mem)

pub head_of-none : (xs : Sent) → head_of xs ≡ none → xs ≡ []
head_of-none [] e = refl
head_of-none (a ∷ xs) e = cc

pub head_of-Perm : (a : SentMessage) (xs : Sent) → head_of xs ≡ some a → Perm xs (a ∷ tail_of xs)
head_of-Perm a [] e = cc
head_of-Perm a (x ∷ xs) e =
    let same : (pick x xs).0 ≡ a = cc in
    subst (λ m. Perm (x ∷ xs) (m ∷ (pick x xs).1)) same (pick-Perm x xs)

pub head_of-First : (a : SentMessage) (xs : Sent) → head_of xs ≡ some a → First a xs
head_of-First a [] e = cc
head_of-First a (x ∷ xs) e =
    let same : (pick x xs).0 ≡ a = cc in subst (λ m. First m (x ∷ xs)) same (pick-First x xs)

abbrev pub list_queue : PriorityQueue SentMessage delivered_last
list_queue = record {
  Queue = Sent;
  empty = [];
  push = λ a xs. a ∷ xs;
  top = head_of;
  pop = tail_of;
  items = λ xs. xs;
  items-empty = refl;
  items-push = λ a xs. Perm.rfl;
  top_none = head_of-none;
  items-pop = head_of-Perm;
  top_first = head_of-First;
}

-- ===== src/Tx/Runtime/Queue.antt =====
-- std::priority_queue, as runtime.cpp uses it: some element that is not below any other is on top. Of
-- several such elements the standard does not say which, so the queue is an interface.
use simple_db.Base.{Bool, false, ◌≡◌, List, [], ◌∷◌, Option, none, some}
use mathlib.Core.List.{Mem, Perm}

-- `below a b` is the comparison that the queue is made with; `items` are the elements in any order.
pub record PriorityQueue (A : Type 0) (below : A → A → Bool) : Type 1 where
  pub Queue : Type 0
  pub empty : Queue
  pub push : A → Queue → Queue
  pub top : Queue → Option A
  pub pop : Queue → Queue
  pub items : Queue → List A
  pub items-empty : items empty ≡ []
  pub items-push : (a : A) (q : Queue) → Perm (items (push a q)) (a ∷ items q)
  pub top_none : (q : Queue) → top q ≡ none → items q ≡ []
  pub items-pop : (a : A) (q : Queue) → top q ≡ some a → Perm (items q) (a ∷ items (pop q))
  pub top_first :
      (a : A) (q : Queue) → top q ≡ some a → (b : A) → Mem b (items q) → below a b ≡ false

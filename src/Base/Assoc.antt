-- ===== src/Base/Assoc.antt =====
-- std::unordered_map as an association list. A loop over a map meets the entries in list order;
-- where the order of such a loop matters, it is an argument of the model.
use mathlib.Core.Path.{◌≡◌, refl}
use mathlib.Core.Bool.{Bool, true, false}
use mathlib.Core.Option.{Option, none, some}
use mathlib.Core.List.{List, [], ◌∷◌}
use native.Mathlib.Omega.{arith}
use simple_db.Base.Tests.{Eq, ◌==◌, if◌then◌else◌}

abbrev pub Dict {ℓ κ} : Type ℓ → Type κ → Type (ℓ ⊔ κ)
Dict K V = List (K × V)

module _ {ℓ κ} {K : Type ℓ} {V : Type κ} ⦃e : Eq K⦄ where
  unfoldable pub find : K → Dict K V → Option V
  find k [] = none
  find k ((j, v) ∷ d) = if k == j then some v else find k d

  -- d.contains(k)
  unfoldable pub contains : K → Dict K V → Bool
  unfolding find
  contains k d = elim (find k d) [ none ↦ false | some _ ↦ true ]

  -- d[k] = v
  unfoldable pub insert : K → V → Dict K V → Dict K V
  insert k v [] = (k, v) ∷ []
  insert k v ((j, w) ∷ d) = if k == j then (j, v) ∷ d else (j, w) ∷ insert k v d

  -- d.erase(k)
  unfoldable pub erase : K → Dict K V → Dict K V
  erase k [] = []
  erase k ((j, w) ∷ d) = let rest = erase k d in if k == j then rest else (j, w) ∷ rest

  pub find-insert :
      (j k : K) (v : V) (d : Dict K V)
      → find j (insert k v d) ≡ (if j == k then some v else find j d)
  unfolding find insert
  find-insert j k v [] = refl
  find-insert j k v ((i, w) ∷ d) =
      ground (arith, e.same_iff j k, e.same_iff k i, e.same_iff j i, find-insert j k v d)

  pub find-erase :
      (j k : K) (d : Dict K V) → find j (erase k d) ≡ (if j == k then none else find j d)
  unfolding find erase
  find-erase j k [] = ground arith
  find-erase j k ((i, w) ∷ d) =
      ground (arith, e.same_iff j k, e.same_iff k i, e.same_iff j i, find-erase j k d)

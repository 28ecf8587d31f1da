-- ===== src/BufferPool/ClockCache/Sweep.antt =====
-- The loop of ClockCache::put.
use simple_db.Base.{
  ℕ, zero, suc, ◌+◌, ◌-◌, ◌*◌, ◌≤◌, ◌<◌, ◌≡◌, ◌≢◌, refl, sym, ap, ◌∙◌, inl, inr, true, false, List,
  [], ◌∷◌, some, ok, err, out_of_fuel, arith, leb, eqb, length, length-set, get_elem?, set,
  get_elem?-set_self, get_elem?-set_ne, get_elem?_of_lt, get_elem?-lt, if◌then◌else◌, Bool-cases,
}
use simple_db.BufferPool.ClockCache.{BufferDescriptor, ClockCache, increase, age, is_free, sweep}

-- Rounds from one place of the clock to another.
abbrev pub distance : ℕ → ℕ → ℕ → ℕ
distance capacity i j = if leb i j then j - i else capacity + j - i

abbrev next_place : ℕ → ℕ → ℕ
next_place capacity i = if eqb (i + 1) capacity then 0 else i + 1

distance-next :
    (capacity i j : ℕ)
    → i < capacity
    → j < capacity
    → i ≢ j
    → distance capacity (next_place capacity i) j + 1 ≡ distance capacity i j
distance-next capacity i j hi hj ne = ground arith

distance-next_self :
    (capacity i : ℕ) → i < capacity → distance capacity (next_place capacity i) i + 1 ≡ capacity
distance-next_self capacity i hi = ground arith

count_down :
    (u capacity x y : ℕ)
    → 0 < u
    → x + 1 ≡ capacity
    → y ≡ 0
    → (u - 1) * capacity + x + 1 ≡ u * capacity + y
count_down zero capacity x y h e z = absurd (omega arith)
count_down (suc u) capacity x y h e z = ground arith

module _ {K : Type 0} where
  -- The cursor stands on a descriptor.
  pub record IsPlaced (c : ClockCache K) : Type 0 where
    pub sized : c.capacity ≡ length c.buffer_descriptors_layer
    pub placed : c.cursor < c.capacity

  -- Descriptors of which only the usage has gone down.
  abbrev pub Aged : List (BufferDescriptor K) → List (BufferDescriptor K) → Type 0
  Aged [] [] = Unit
  Aged [] (d' ∷ ds') = ⊥
  Aged (d ∷ ds) [] = ⊥
  Aged (d ∷ ds) (d' ∷ ds') =
      (d'.tag ≡ d.tag) × (d'.lock ≡ d.lock) × (d'.usage ≤ d.usage) × Aged ds ds'

  Aged-refl : (ds : List (BufferDescriptor K)) → Aged ds ds
  Aged-refl [] = tt
  Aged-refl (d ∷ ds) = (refl, refl, omega arith, Aged-refl ds)

  Aged-trans : (ds es fs : List (BufferDescriptor K)) → Aged ds es → Aged es fs → Aged ds fs
  Aged-trans [] [] [] a b = tt
  Aged-trans [] [] (f ∷ fs) a b = b
  Aged-trans [] (x ∷ es) fs a b = absurd a
  Aged-trans (d ∷ ds) [] fs a b = absurd a
  Aged-trans (d ∷ ds) (x ∷ es) [] a b = b
  Aged-trans (d ∷ ds) (x ∷ es) (f ∷ fs) (a, b, c, r) (a', b', c', r') =
      (a' ∙ a, b' ∙ b, omega arith, Aged-trans ds es fs r r')

  Aged-set :
      (ds : List (BufferDescriptor K)) (i : ℕ) (d d' : BufferDescriptor K)
      → get_elem? ds i ≡ some d
      → d'.tag ≡ d.tag
      → d'.lock ≡ d.lock
      → d'.usage ≤ d.usage
      → Aged ds (set ds i d')
  Aged-set [] i d d' g t l u = tt
  Aged-set (x ∷ ds) zero d d' g t l u = ground (arith, Aged-refl ds)
  Aged-set (x ∷ ds) (suc i) d d' g t l u = (refl, refl, omega arith, Aged-set ds i d d' g t l u)

  pub Aged-length : (ds es : List (BufferDescriptor K)) → Aged ds es → length es ≡ length ds
  Aged-length [] [] a = refl
  Aged-length [] (x ∷ es) a = absurd a
  Aged-length (d ∷ ds) [] a = absurd a
  Aged-length (d ∷ ds) (x ∷ es) a = ap suc (Aged-length ds es a.3)

  pub Aged-get :
      (ds es : List (BufferDescriptor K)) (i : ℕ) (d : BufferDescriptor K)
      → Aged ds es
      → get_elem? ds i ≡ some d
      → (d' : BufferDescriptor K) × (get_elem? es i ≡ some d')
        × (d'.tag ≡ d.tag)
        × (d'.lock ≡ d.lock)
        × (d'.usage ≤ d.usage)
  Aged-get [] es i d a g = cc
  Aged-get (x ∷ ds) [] i d a g = absurd a
  Aged-get (x ∷ ds) (y ∷ es) zero d a g = (y, refl, ground arith, ground arith, ground arith)
  Aged-get (x ∷ ds) (y ∷ es) (suc i) d a g = Aged-get ds es i d a.3 g

  pub Aged-get_back :
      (ds es : List (BufferDescriptor K)) (i : ℕ) (d' : BufferDescriptor K)
      → Aged ds es
      → get_elem? es i ≡ some d'
      → (d : BufferDescriptor K) × (get_elem? ds i ≡ some d) × (d'.tag ≡ d.tag) × (d'.lock ≡ d.lock)
  Aged-get_back ds [] i d' a g = cc
  Aged-get_back [] (y ∷ es) i d' a g = absurd a
  Aged-get_back (x ∷ ds) (y ∷ es) zero d' a g = (x, refl, ground arith, ground arith)
  Aged-get_back (x ∷ ds) (y ∷ es) (suc i) d' a g = Aged-get_back ds es i d' a.3 g

  pub increase-IsPlaced : (c : ClockCache K) → IsPlaced c → IsPlaced (increase c)
  unfolding increase
  increase-IsPlaced c v = ground arith

  age-IsPlaced : (c : ClockCache K) (d : BufferDescriptor K) → IsPlaced c → IsPlaced (age d c)
  age-IsPlaced c d v =
      ground
        (arith, length-set c.buffer_descriptors_layer c.cursor (record d { usage = d.usage - 1 }))

  age-Aged :
      (c : ClockCache K) (d : BufferDescriptor K)
      → get_elem? c.buffer_descriptors_layer c.cursor ≡ some d
      → Aged c.buffer_descriptors_layer (age d c).buffer_descriptors_layer
  age-Aged c d g = ground (
    arith,
    Aged-refl c.buffer_descriptors_layer,
    Aged-set c.buffer_descriptors_layer c.cursor d (record d { usage = d.usage - 1 }) g,
  )

  increase-cursor :
      (c : ClockCache K) (d : BufferDescriptor K)
      → (increase (age d c)).cursor ≡ next_place c.capacity c.cursor
  unfolding increase
  increase-cursor c d = ground arith

  pub increase-layer :
      (c : ClockCache K) → (increase c).buffer_descriptors_layer ≡ c.buffer_descriptors_layer
  unfolding increase
  increase-layer c = ground arith

  increase-capacity :
      (c : ClockCache K) (d : BufferDescriptor K) → (increase (age d c)).capacity ≡ c.capacity
  unfolding increase
  increase-capacity c d = ground arith

  pub increase-table : (c : ClockCache K) → (increase c).buffer_table_layer ≡ c.buffer_table_layer
  unfolding increase
  increase-table c = ground arith

  age-table :
      (c : ClockCache K) (d : BufferDescriptor K)
      → (increase (age d c)).buffer_table_layer ≡ c.buffer_table_layer
  age-table c d = ground (arith, increase-table (age d c))

  same_element :
      (c : ClockCache K) (j : ℕ) (d f : BufferDescriptor K)
      → c.cursor ≡ j
      → get_elem? c.buffer_descriptors_layer c.cursor ≡ some d
      → get_elem? c.buffer_descriptors_layer j ≡ some f
      → d ≡ f
  same_element c j d f at g gj = cc (ap (get_elem? c.buffer_descriptors_layer) at)

  -- A round that does not end the loop brings an unlocked frame one round closer to being free.
  round_closer :
      (c : ClockCache K) (d : BufferDescriptor K) (j : ℕ) (f : BufferDescriptor K)
      → IsPlaced c
      → get_elem? c.buffer_descriptors_layer c.cursor ≡ some d
      → is_free d ≡ false
      → get_elem? c.buffer_descriptors_layer j ≡ some f
      → f.lock ≡ false
      → (f' : BufferDescriptor K) × (get_elem? (age d c).buffer_descriptors_layer j ≡ some f')
        × (f'.lock ≡ false)
        × (f'.usage * c.capacity + distance c.capacity (next_place c.capacity c.cursor) j + 1
            ≡ f.usage * c.capacity + distance c.capacity c.cursor j)
  round_closer c d j f v g busy gj fl = elim (Bool-cases (eqb c.cursor j)) [
    | inl here ↦
        let at : c.cursor ≡ j = ground arith in
        let same : d ≡ f = same_element c j d f at g gj in
        (
          record d { usage = d.usage - 1 },
          ground (
            arith,
            get_elem?-set_self c.buffer_descriptors_layer j (record d { usage = d.usage - 1 })
                (get_elem?-lt c.buffer_descriptors_layer j f gj),
          ),
          rw same fl,
          rw (← same, ← at)
              (count_down d.usage c.capacity _ _ (ground arith)
                (distance-next_self c.capacity c.cursor v.placed) (ground arith)),
        )
    | inr there ↦ (
      f,
      ground (
        arith,
        get_elem?-set_ne c.buffer_descriptors_layer c.cursor j (record d { usage = d.usage - 1 }),
      ),
      fl,
      ground (
        arith,
        distance-next c.capacity c.cursor j v.placed,
        get_elem?-lt c.buffer_descriptors_layer j f gj,
      ),
    )
  ]

  -- What the loop has done when it breaks: it stands on a frame that is not locked and not in
  -- use, and has only counted usages down.
  pub record Swept (c c' : ClockCache K) : Type 0 where
    pub place : IsPlaced c'
    pub table : c'.buffer_table_layer ≡ c.buffer_table_layer
    pub same_capacity : c'.capacity ≡ c.capacity
    pub aged : Aged c.buffer_descriptors_layer c'.buffer_descriptors_layer
    pub frame : BufferDescriptor K
    pub at_cursor : get_elem? c'.buffer_descriptors_layer c'.cursor ≡ some frame
    pub unlocked : frame.lock ≡ false
    pub unused : frame.usage ≡ 0

  Swept-step :
      (c c' : ClockCache K) (d : BufferDescriptor K)
      → get_elem? c.buffer_descriptors_layer c.cursor ≡ some d
      → Swept (increase (age d c)) c'
      → Swept c c'
  Swept-step c c' d g s = record {
    place = s.place;
    table = s.table ∙ age-table c d;
    same_capacity = s.same_capacity ∙ increase-capacity c d;
    aged =
        Aged-trans c.buffer_descriptors_layer (age d c).buffer_descriptors_layer
          c'.buffer_descriptors_layer (age-Aged c d g) (rw (increase-layer (age d c)) at s.aged);
    frame = s.frame;
    at_cursor = s.at_cursor;
    unlocked = s.unlocked;
    unused = s.unused;
  }

  pub sweep-Swept :
      (fuel : ℕ) (c : ClockCache K) (j : ℕ) (f : BufferDescriptor K)
      → IsPlaced c
      → get_elem? c.buffer_descriptors_layer j ≡ some f
      → f.lock ≡ false
      → f.usage * c.capacity + distance c.capacity c.cursor j < fuel
      → (c' : ClockCache K) × (sweep fuel c ≡ ok c') × Swept c c'
  unfolding sweep
  sweep-Swept zero c j f v gj fl h = absurd (omega arith)
  sweep-Swept (suc fuel) c j f v gj fl h =
      let (d, g) = get_elem?_of_lt c.buffer_descriptors_layer c.cursor (omega arith) in
      elim (Bool-cases (is_free d)) [
        | inl free ↦ (
          c,
          rw (g, free),
          record {
            place = v;
            table = refl;
            same_capacity = refl;
            aged = Aged-refl c.buffer_descriptors_layer;
            frame = d;
            at_cursor = g;
            unlocked = ground arith;
            unused = ground arith;
          },
        )
        | inr busy ↦
            let (f', gj', fl', closer) = round_closer c d j f v g busy gj fl in
            let c₁ = increase (age d c) in
            let (c', ran, s) =
              sweep-Swept fuel c₁ j f' (increase-IsPlaced (age d c) (age-IsPlaced c d v))
                (rw (increase-layer (age d c)) gj') fl'
                (rw (increase-capacity c d, increase-cursor c d) (omega arith)) in
            (c', rw (g, busy) ran, Swept-step c c' d g s)
      ]

  -- With every frame locked the loop does not end.
  pub sweep_all_locked :
      (fuel : ℕ) (c : ClockCache K)
      → IsPlaced c
      → ((j : ℕ) (f : BufferDescriptor K)
          → get_elem? c.buffer_descriptors_layer j ≡ some f
          → f.lock ≡ true)
      → sweep fuel c ≡ err out_of_fuel
  unfolding sweep
  sweep_all_locked zero c v locked = refl
  sweep_all_locked (suc fuel) c v locked =
      let (d, g) = get_elem?_of_lt c.buffer_descriptors_layer c.cursor (omega arith) in
      let busy : is_free d ≡ false = rw (locked c.cursor d g) in
      let same : age d c ≡ c = rw (locked c.cursor d g) in
      rw (g, busy, same)
        (sweep_all_locked fuel (increase c) (increase-IsPlaced c v)
          (λ j f e. locked j f (sym (ap (λ l. get_elem? l j) (increase-layer c)) ∙ e)))

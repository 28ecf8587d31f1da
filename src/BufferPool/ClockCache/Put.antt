-- ===== src/BufferPool/ClockCache/Put.antt =====
-- What ClockCache::put does to the table and to the descriptors.
use simple_db.Base.{
  ℕ, ◌+◌, ◌*◌, ◌<◌, ◌≡◌, ◌≢◌, refl, sym, ap, ◌∙◌, inl, inr, true, false, none, some, ok, err,
  out_of_fuel, arith, eqb, Eq, ◌==◌, length-set, get_elem?, set, get_elem?-set_self,
  get_elem?-set_ne, get_elem?-lt, find, erase, find-insert, find-erase, if◌then◌else◌, Bool-cases,
}
use simple_db.BufferPool.ClockCache.{BufferDescriptor, ClockCache, increase, replace, put}
use simple_db.BufferPool.ClockCache.Sweep.{
  IsPlaced, distance, Swept, Aged-get, sweep-Swept, sweep_all_locked, increase-IsPlaced,
  increase-table, increase-layer, Aged-get_back,
}
use simple_db.BufferPool.ClockCache.Valid.{Holds, IsValid}

module _ {K : Type 0} ⦃e : Eq K⦄ where
  -- What `put` does: the key takes an unlocked frame, whose old key is forgotten, every other key
  -- keeps its frame, and every other frame its key and its lock.
  pub record Puts (k : K) (c : ClockCache K) (i : ℕ) (c' : ClockCache K) : Type 0 where
    pub valid : IsValid c'
    pub same_capacity : c'.capacity ≡ c.capacity
    pub old : BufferDescriptor K
    pub was : get_elem? c.buffer_descriptors_layer i ≡ some old
    pub unlocked : old.lock ≡ false
    pub now :
        (d : BufferDescriptor K) × (get_elem? c'.buffer_descriptors_layer i ≡ some d)
        × (d.tag ≡ k)
        × (d.lock ≡ false)
    pub others :
        (j : ℕ) (d : BufferDescriptor K)
        → i ≢ j
        → get_elem? c.buffer_descriptors_layer j ≡ some d
        → (d' : BufferDescriptor K) × (get_elem? c'.buffer_descriptors_layer j ≡ some d')
          × (d'.tag ≡ d.tag)
          × (d'.lock ≡ d.lock)
    pub table :
        (j : K)
        → find j c'.buffer_table_layer
          ≡ (if j == k then some i else if j == old.tag then none else find j c.buffer_table_layer)

module _ {K : Type 0} ⦃e : Eq K⦄ (k : K) (c c' : ClockCache K) (v : IsValid c)
    (s : Swept c c') where
  replace-table :
      (j : K)
      → find j (increase (replace k s.frame c')).buffer_table_layer ≡ (
          if j == k
          then some c'.cursor
          else if j == s.frame.tag
          then none
          else find j c.buffer_table_layer)
  unfolding replace
  replace-table j =
      rw (increase-table (replace k s.frame c'), replace)
        (ground (
          arith,
          find-insert j k c'.cursor (erase s.frame.tag c'.buffer_table_layer),
          find-erase j s.frame.tag c'.buffer_table_layer,
          ap (find j) s.table,
        ))

  abbrev written : BufferDescriptor K
  written = record s.frame { tag = k; usage = 1 }

  replace-layer :
      (increase (replace k s.frame c')).buffer_descriptors_layer
      ≡ set c'.buffer_descriptors_layer c'.cursor written
  unfolding replace
  replace-layer = increase-layer (replace k s.frame c')

  replace-at_cursor :
      get_elem? (increase (replace k s.frame c')).buffer_descriptors_layer c'.cursor ≡ some written
  replace-at_cursor = rw replace-layer (
      get_elem?-set_self c'.buffer_descriptors_layer c'.cursor written
        (get_elem?-lt c'.buffer_descriptors_layer c'.cursor s.frame s.at_cursor))

  -- A key other than that of the frame given up keeps its frame.
  put-Holds_other :
      (j : K) (i : ℕ)
      → (j == s.frame.tag) ≡ false
      → Holds c i j
      → Holds (increase (replace k s.frame c')) i j
  put-Holds_other j i ne (d, g, t) =
      let (d', g', t', l', u') =
        Aged-get c.buffer_descriptors_layer c'.buffer_descriptors_layer i d s.aged g in
      elim (Bool-cases (eqb c'.cursor i)) [
        | inl here ↦ absurd (clash d' (ground arith) g' (t' ∙ t))
        | inr there ↦ (
          d',
          rw replace-layer (
              get_elem?-set_ne c'.buffer_descriptors_layer c'.cursor i written (ground arith) ∙ g'),
          t' ∙ t,
        )
      ]
    where
      clash :
          (d' : BufferDescriptor K)
          → c'.cursor ≡ i
          → get_elem? c'.buffer_descriptors_layer i ≡ some d'
          → d'.tag ≡ j
          → ⊥
      clash d' at g' t' = ground (
        arith,
        ap (get_elem? c'.buffer_descriptors_layer) at,
        s.at_cursor,
        e.same_iff j s.frame.tag,
      )

  -- A key that is in the table is in its frame.
  replace-Holds :
      (j : K) (i : ℕ)
      → find j (increase (replace k s.frame c')).buffer_table_layer ≡ some i
      → Holds (increase (replace k s.frame c')) i j
  replace-Holds j i f = elim (Bool-cases (j == k)) [
    | inl same ↦
        let at : i ≡ c'.cursor = ground (arith, replace-table j) in
        rw (at, (e.same_iff j k).0 same) (written, replace-at_cursor, refl)
    | inr other ↦ elim (Bool-cases (j == s.frame.tag)) [
      | inl gone ↦ absurd (ground (arith, replace-table j))
      | inr kept ↦ put-Holds_other j i kept (v.mapped j i (ground (arith, replace-table j)))
    ]
  ]

  replace-others :
      (j : ℕ) (d : BufferDescriptor K)
      → c'.cursor ≢ j
      → get_elem? c.buffer_descriptors_layer j ≡ some d
      → (d' : BufferDescriptor K) × (get_elem?
            (increase (replace k s.frame c')).buffer_descriptors_layer
            j
          ≡ some d')
        × (d'.tag ≡ d.tag)
        × (d'.lock ≡ d.lock)
  replace-others j d ne g =
      let (d', g', t, l, u) =
        Aged-get c.buffer_descriptors_layer c'.buffer_descriptors_layer j d s.aged g in
      (
        d',
        rw replace-layer (get_elem?-set_ne c'.buffer_descriptors_layer c'.cursor j written ne ∙ g'),
        t,
        l,
      )

  replace-IsPlaced : IsPlaced (increase (replace k s.frame c'))
  unfolding replace
  replace-IsPlaced = increase-IsPlaced (replace k s.frame c') (
      ground (
        arith,
        length-set c'.buffer_descriptors_layer c'.cursor (record s.frame { tag = k; usage = 1 }),
        s.place,
      ))

  replace-capacity : (increase (replace k s.frame c')).capacity ≡ c.capacity
  unfolding replace increase
  replace-capacity = ground (arith, s.same_capacity)

  replace-Puts : Puts k c c'.cursor (increase (replace k s.frame c'))
  replace-Puts =
      let (d, g, t, l) =
        Aged-get_back c.buffer_descriptors_layer c'.buffer_descriptors_layer c'.cursor s.frame
          s.aged s.at_cursor in
      record {
        valid = record { place = replace-IsPlaced; mapped = replace-Holds };
        same_capacity = replace-capacity;
        old = d;
        was = g;
        unlocked = sym l ∙ s.unlocked;
        now = (written, replace-at_cursor, refl, s.unlocked);
        others = replace-others;
        table = λ j. rw (← t) (replace-table j);
      }

module _ {K : Type 0} ⦃e : Eq K⦄ where
  -- In a valid cache with an unlocked frame `put` ends, after no more rounds than the usage count
  -- of that frame times the number of frames, and the way to it. It then gives the key an unlocked
  -- frame, as `Puts` says, and leaves the cache valid.
  pub put-Puts :
      (fuel : ℕ) (k : K) (c : ClockCache K) (j : ℕ) (f : BufferDescriptor K)
      → IsValid c
      → get_elem? c.buffer_descriptors_layer j ≡ some f
      → f.lock ≡ false
      → f.usage * c.capacity + distance c.capacity c.cursor j < fuel
      → (r : ℕ × ClockCache K) × (put fuel k c ≡ ok r) × Puts k c r.0 r.1
  unfolding put
  put-Puts fuel k c j f v g l h =
      let (c', ran, s) = sweep-Swept fuel c j f v.place g l h in
      ((c'.cursor, increase (replace k s.frame c')), rw (ran, s.at_cursor), replace-Puts k c c' v s)

  -- With every frame locked `put` goes round for ever.
  pub put_all_locked :
      (fuel : ℕ) (k : K) (c : ClockCache K)
      → IsValid c
      → ((j : ℕ) (f : BufferDescriptor K)
          → get_elem? c.buffer_descriptors_layer j ≡ some f
          → f.lock ≡ true)
      → put fuel k c ≡ err out_of_fuel
  unfolding put
  put_all_locked fuel k c v locked = rw (sweep_all_locked fuel c v.place locked)

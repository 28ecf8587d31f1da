-- ===== src/BufferPool/ClockCache/Valid.antt =====
-- The table and the descriptors of the cache agree, and what `put` does to both.
use simple_db.Base.{
  ℕ, ◌+◌, ◌%◌, ◌<◌, ◌≡◌, ◌≢◌, refl, sym, ap, inl, inr, Bool, true, false, Option, none, some, ok,
  arith, lt→ltb, eqb, Eq, length-set, length-replicate, get_elem?, get_elem?-set_self,
  get_elem?-set_ne, get_elem?_of_lt, get_elem?-lt, find, Bool-cases, Option-cases,
}
use simple_db.BufferPool.ClockCache.{
  BufferDescriptor, ClockCache, size_mod, init, write_descriptor, lock, unlock, get,
}
use simple_db.BufferPool.ClockCache.Sweep.{IsPlaced}

module _ {K : Type 0} where
  -- The descriptor of a frame has the key.
  abbrev pub Holds : ClockCache K → ℕ → K → Type 0
  Holds c i k =
      (d : BufferDescriptor K) × (get_elem? c.buffer_descriptors_layer i ≡ some d) × (d.tag ≡ k)

  write-IsPlaced :
      (i : ℕ) (d : BufferDescriptor K) (c : ClockCache K)
      → IsPlaced c
      → IsPlaced (write_descriptor i d c)
  write-IsPlaced i d c v = ground (arith, length-set c.buffer_descriptors_layer i d)

  write-Holds :
      (i j : ℕ) (d d' : BufferDescriptor K) (k : K) (c : ClockCache K)
      → get_elem? c.buffer_descriptors_layer i ≡ some d
      → d'.tag ≡ d.tag
      → Holds c j k
      → Holds (write_descriptor i d' c) j k
  write-Holds i j d d' k c g t (f, gj, tag) = elim (Bool-cases (eqb i j)) [
    | inl here ↦
        let at : i ≡ j = ground arith in
        (
          d',
          rw at (
              get_elem?-set_self c.buffer_descriptors_layer j d'
                (get_elem?-lt c.buffer_descriptors_layer j f gj)),
          ground (arith, ap (get_elem? c.buffer_descriptors_layer) at),
        )
    | inr there ↦ (f, ground (arith, get_elem?-set_ne c.buffer_descriptors_layer i j d'), tag)
  ]

  -- Only the lock of one frame changes.
  pub record Locks (i : ℕ) (b : Bool) (c c' : ClockCache K) : Type 0 where
    pub table : c'.buffer_table_layer ≡ c.buffer_table_layer
    pub same_capacity : c'.capacity ≡ c.capacity
    pub same_cursor : c'.cursor ≡ c.cursor
    pub here :
        (d : BufferDescriptor K)
        → get_elem? c.buffer_descriptors_layer i ≡ some d
        → get_elem? c'.buffer_descriptors_layer i ≡ some (record d { lock = b })
    pub others :
        (j : ℕ)
        → i ≢ j
        → get_elem? c'.buffer_descriptors_layer j ≡ get_elem? c.buffer_descriptors_layer j

  write-Locks :
      (i : ℕ) (b : Bool) (c : ClockCache K) (d : BufferDescriptor K)
      → get_elem? c.buffer_descriptors_layer i ≡ some d
      → Locks i b c (write_descriptor i (record d { lock = b }) c)
  write-Locks i b c d g = record {
    table = refl;
    same_capacity = refl;
    same_cursor = refl;
    here = λ d' g'. ground (
      arith,
      get_elem?-set_self c.buffer_descriptors_layer i (record d { lock = b })
          (get_elem?-lt c.buffer_descriptors_layer i d g),
    );
    others = λ j ne. get_elem?-set_ne c.buffer_descriptors_layer i j (record d { lock = b }) ne;
  }

module _ {K : Type 0} ⦃e : Eq K⦄ where
  -- The table leads to frames that hold their keys.
  pub record IsValid (c : ClockCache K) : Type 0 where
    pub place : IsPlaced c
    pub mapped : (k : K) (i : ℕ) → find k c.buffer_table_layer ≡ some i → Holds c i k

  pub init-IsValid : (default : K) (n : ℕ) → 0 < n → IsValid (init default n)
  unfolding find
  init-IsValid default n h = record {
    place = record {
      sized = sym (length-replicate n (record { tag = default; usage = 0; lock = false }));
      placed = h;
    };
    mapped = λ k i e. cc;
  }

  pub write-IsValid :
      (i : ℕ) (d d' : BufferDescriptor K) (c : ClockCache K)
      → get_elem? c.buffer_descriptors_layer i ≡ some d
      → d'.tag ≡ d.tag
      → IsValid c
      → IsValid (write_descriptor i d' c)
  write-IsValid i d d' c g t v = record {
    place = write-IsPlaced i d' c v.place;
    mapped = λ k j f. write-Holds i j d d' k c g t (v.mapped k j f);
  }

  -- A lookup never fails, finds what the table has, and leaves the table as it is.
  pub get-IsValid :
      (k : K) (c : ClockCache K)
      → IsValid c
      → (r : Option ℕ × ClockCache K) × (get k c ≡ ok r)
        × IsValid r.1
        × (r.0 ≡ find k c.buffer_table_layer)
        × (r.1.buffer_table_layer ≡ c.buffer_table_layer)
  unfolding get
  get-IsValid k c v = elim (Option-cases (find k c.buffer_table_layer)) [
    | inl miss ↦ ((none, c), rw (miss, get), v, sym miss, refl)
    | inr (i, hit) ↦
        let (d, g, t) = v.mapped k i hit in
        (
          (some i, write_descriptor i (record d { usage = (d.usage + 1) % size_mod }) c),
          rw (hit, get, g),
          write-IsValid i d (record d { usage = (d.usage + 1) % size_mod }) c g refl v,
          sym hit,
          refl,
        )
  ]

  -- Two keys of the table never share a frame.
  pub frame_unique :
      (j k : K) (i : ℕ) (c : ClockCache K)
      → IsValid c
      → find j c.buffer_table_layer ≡ some i
      → find k c.buffer_table_layer ≡ some i
      → j ≡ k
  frame_unique j k i c v fj fk =
      let (d, g, t) = v.mapped j i fj in let (d', g', t') = v.mapped k i fk in cc

  -- Locking a frame within the capacity of a valid cache never fails and keeps the cache valid. It sets
  -- that frame's lock; its key and usage, the other frames, the table, the capacity and the cursor stay.
  pub lock-IsValid :
      (i : ℕ) (c : ClockCache K)
      → IsValid c
      → i < c.capacity
      → (c' : ClockCache K) × (lock i c ≡ ok c') × IsValid c' × Locks i true c c'
  unfolding lock
  lock-IsValid i c v h =
      let (d, g) = get_elem?_of_lt c.buffer_descriptors_layer i (omega (arith, v.place.sized)) in
      (
        write_descriptor i (record d { lock = true }) c,
        rw (lt→ltb i c.capacity h, g),
        write-IsValid i d (record d { lock = true }) c g refl v,
        write-Locks i true c d g,
      )

  -- Unlocking a frame within the capacity of a valid cache never fails and keeps the cache valid. It
  -- clears that frame's lock; its key and usage, the other frames, the table, the capacity and the cursor
  -- stay.
  pub unlock-IsValid :
      (i : ℕ) (c : ClockCache K)
      → IsValid c
      → i < c.capacity
      → (c' : ClockCache K) × (unlock i c ≡ ok c') × IsValid c' × Locks i false c c'
  unfolding unlock
  unlock-IsValid i c v h =
      let (d, g) = get_elem?_of_lt c.buffer_descriptors_layer i (omega (arith, v.place.sized)) in
      (
        write_descriptor i (record d { lock = false }) c,
        rw (lt→ltb i c.capacity h, g),
        write-IsValid i d (record d { lock = false }) c g refl v,
        write-Locks i false c d g,
      )

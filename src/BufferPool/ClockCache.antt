-- ===== src/BufferPool/ClockCache.antt =====
-- src/buffer_pool/clock_cache.h: which key stands in which frame, and the clock that picks the
-- frame to give up. `default` is TKey{}.
pub mod Sweep
pub mod Valid
pub mod Put
use simple_db.Base.{
  ℕ, zero, suc, ◌+◌, ◌-◌, ◌%◌, ◌^◌, Bool, true, false, ◌&&◌, not, List, [], Option, none, some,
  Result, ok, err, ◌>>=◌, ◌>>◌, guard, or_fail, assert_failed, out_of_range, out_of_fuel, ltb, eqb,
  Eq, get_elem?, set, replicate, Dict, find, insert, erase, if◌then◌else◌,
}

pub record BufferDescriptor (K : Type 0) : Type 0 where
  pub tag : K
  pub usage : ℕ
  pub lock : Bool

pub record ClockCache (K : Type 0) : Type 0 where
  pub buffer_table_layer : Dict K ℕ
  pub buffer_descriptors_layer : List (BufferDescriptor K)
  pub capacity : ℕ
  pub cursor : ℕ

-- The counters are of type size_t.
abbrev pub size_mod : ℕ
size_mod = 2 ^ 64

module _ {K : Type 0} where
  -- A value-initialised descriptor has the key TKey{}.
  abbrev pub init : K → ℕ → ClockCache K
  init default cache_size = record {
    buffer_table_layer = [];
    buffer_descriptors_layer =
        replicate cache_size (record { tag = default; usage = 0; lock = false });
    capacity = cache_size;
    cursor = 0;
  }

  abbrev pub write_descriptor : ℕ → BufferDescriptor K → ClockCache K → ClockCache K
  write_descriptor i d c = record c {
    buffer_descriptors_layer = set c.buffer_descriptors_layer i d;
  }

  unfoldable pub increase : ClockCache K → ClockCache K
  increase c =
      if eqb (c.cursor + 1) c.capacity
      then record c { cursor = 0 }
      else record c { cursor = c.cursor + 1 }

  -- A locked frame keeps its usage count.
  abbrev pub age : BufferDescriptor K → ClockCache K → ClockCache K
  age d c = if d.lock then c else write_descriptor c.cursor (record d { usage = d.usage - 1 }) c

  abbrev pub is_free : BufferDescriptor K → Bool
  is_free d = not d.lock && eqb d.usage 0

  -- The loop of `put`, up to the frame that it breaks at.
  unfoldable pub sweep : ℕ → ClockCache K → Result (ClockCache K)
  unfolding increase
  sweep zero c = err out_of_fuel
  sweep (suc fuel) c = or_fail (get_elem? c.buffer_descriptors_layer c.cursor) out_of_range >>= λ d.
      let rest = sweep fuel (increase (age d c)) in if is_free d then ok c else rest

  unfoldable pub lock : ℕ → ClockCache K → Result (ClockCache K)
  lock i c = do
    guard (ltb i c.capacity) assert_failed
    d ← or_fail (get_elem? c.buffer_descriptors_layer i) out_of_range
    ok (write_descriptor i (record d { lock = true }) c)

  unfoldable pub unlock : ℕ → ClockCache K → Result (ClockCache K)
  unlock i c = do
    guard (ltb i c.capacity) assert_failed
    d ← or_fail (get_elem? c.buffer_descriptors_layer i) out_of_range
    ok (write_descriptor i (record d { lock = false }) c)

module _ {K : Type 0} ⦃e : Eq K⦄ where
  -- `none` is the pair (0, false).
  unfoldable pub get : K → ClockCache K → Result (Option ℕ × ClockCache K)
  get key c = elim (find key c.buffer_table_layer) [
    | none ↦ ok (none, c)
    | some i ↦ do
      d ← or_fail (get_elem? c.buffer_descriptors_layer i) out_of_range
      ok (some i, write_descriptor i (record d { usage = (d.usage + 1) % size_mod }) c)
  ]

  -- The new key takes the frame under the cursor.
  unfoldable pub replace : K → BufferDescriptor K → ClockCache K → ClockCache K
  replace key d c = record (write_descriptor c.cursor (record d { tag = key; usage = 1 }) c) {
    buffer_table_layer = insert key c.cursor (erase d.tag c.buffer_table_layer);
  }

  -- The frame that the key is put into; the cursor goes on behind it.
  unfoldable pub put : ℕ → K → ClockCache K → Result (ℕ × ClockCache K)
  unfolding sweep replace
  put fuel key c = do
    swept ← sweep fuel c
    d ← or_fail (get_elem? swept.buffer_descriptors_layer swept.cursor) out_of_range
    ok (swept.cursor, increase (replace key d swept))

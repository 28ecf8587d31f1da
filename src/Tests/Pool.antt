-- ===== src/Tests/Pool.antt =====
-- Runs of src/buffer_pool on a cache of two frames.
use simple_db.Base.{
  ℕ, zero, suc, ◌≡◌, refl, true, false, Option, some, [], ◌∷◌, ok, err, out_of_fuel, arith, find,
  nat_eq, get_elem?, insert, erase,
}
use simple_db.BufferPool.ClockCache.{BufferDescriptor, ClockCache, increase, get, put, lock, unlock}
use simple_db.BufferPool.ClockCache.Valid.{
  IsValid, Holds, get-IsValid, lock-IsValid, Locks, unlock-IsValid,
}
use simple_db.BufferPool.ClockCache.Put.{Puts, put-Puts, put_all_locked}

abbrev filled : ClockCache ℕ
filled = record {
  buffer_table_layer = (7, 0) ∷ (8, 1) ∷ [];
  buffer_descriptors_layer =
      record { tag = 7; usage = 1; lock = true } ∷ record { tag = 8; usage = 2; lock = false } ∷ [];
  capacity = 2;
  cursor = 0;
}

abbrev first : BufferDescriptor ℕ
first = record { tag = 7; usage = 1; lock = true }

abbrev second : BufferDescriptor ℕ
second = record { tag = 8; usage = 2; lock = false }

filled-Holds : (k i : ℕ) → find k filled.buffer_table_layer ≡ some i → Holds filled i k
unfolding find
filled-Holds k zero e = (first, refl, ground arith)
filled-Holds k (suc zero) e = (second, refl, ground arith)
filled-Holds k (suc (suc i)) e = absurd (ground arith)

filled-IsValid : IsValid filled
filled-IsValid = record {
  place = record { sized = refl; placed = omega arith };
  mapped = filled-Holds;
}

-- The second frame is free after two rounds over the two frames.
put-Puts_example : (r : ℕ × ClockCache ℕ) × (put 6 9 filled ≡ ok r) × Puts 9 filled r.0 r.1
put-Puts_example = put-Puts 6 9 filled 1 second filled-IsValid refl refl (omega arith)

put_takes_second :
    put 6 9 filled
    ≡ ok (
      1,
      record {
        buffer_table_layer = (7, 0) ∷ (9, 1) ∷ [];
        buffer_descriptors_layer = first ∷ record { tag = 9; usage = 1; lock = false } ∷ [];
        capacity = 2;
        cursor = 0;
      },
    )
unfolding put increase find insert erase
put_takes_second = refl

abbrev stuck : ClockCache ℕ
stuck = record filled { buffer_descriptors_layer = first ∷ record second { lock = true } ∷ [] }

stuck-Holds : (k i : ℕ) → find k stuck.buffer_table_layer ≡ some i → Holds stuck i k
unfolding find
stuck-Holds k zero e = (first, refl, ground arith)
stuck-Holds k (suc zero) e = (record second { lock = true }, refl, ground arith)
stuck-Holds k (suc (suc i)) e = absurd (ground arith)

stuck-locked :
    (j : ℕ) (f : BufferDescriptor ℕ)
    → get_elem? stuck.buffer_descriptors_layer j ≡ some f
    → f.lock ≡ true
stuck-locked zero f e = ground arith
stuck-locked (suc zero) f e = ground arith
stuck-locked (suc (suc j)) f e = cc

put_all_locked_example : put 100 9 stuck ≡ err out_of_fuel
put_all_locked_example =
    put_all_locked 100 9 stuck
      (record { place = record { sized = refl; placed = omega arith }; mapped = stuck-Holds })
      stuck-locked

get-IsValid_example :
    (r : Option ℕ × ClockCache ℕ) × (get 8 filled ≡ ok r)
    × IsValid r.1
    × (r.0 ≡ find 8 filled.buffer_table_layer)
    × (r.1.buffer_table_layer ≡ filled.buffer_table_layer)
get-IsValid_example = get-IsValid 8 filled filled-IsValid

lock-IsValid_example :
    (c' : ClockCache ℕ) × (lock 1 filled ≡ ok c') × IsValid c' × Locks 1 true filled c'
lock-IsValid_example = lock-IsValid 1 filled filled-IsValid (omega arith)

unlock-IsValid_example :
    (c' : ClockCache ℕ) × (unlock 0 filled ≡ ok c') × IsValid c' × Locks 0 false filled c'
unlock-IsValid_example = unlock-IsValid 0 filled filled-IsValid (omega arith)

-- ===== src/Tx/Clock.antt =====
-- src/tx/clock: the clock that the runtime and the actors share.
use simple_db.Base.{pos, suc_ℤ, ◌≡◌, refl, ◌<ℤ◌, lt-suc_ℤ}
use simple_db.Tx.Types.{Timestamp}

pub record Clock : Type 0 where
  pub tm : Timestamp

abbrev pub init : Clock
init = record { tm = pos 0 }

unfoldable pub current : Clock → Timestamp
current c = c.tm

unfoldable pub next : Clock → Timestamp × Clock
next c = let t = suc_ℤ c.tm in (t, record { tm = t })

-- The time that `next` gives out is the clock's new time, and later than its old one.
pub next-current : (c : Clock) → (current (next c).1 ≡ (next c).0) × (current c <ℤ (next c).0)
unfolding current next
next-current c = (refl, lt-suc_ℤ c.tm)

-- ===== src/Tx/Discovery.antt =====
-- src/tx/discovery: only systems of one node are supported.
use simple_db.Base.{List, [], ◌∷◌, Result, ok, err, invalid_argument}
use simple_db.Tx.Types.{ActorId, Key, KeyIntervals}

pub record Discovery : Type 0 where
  pub actor_ids : List ActorId
  pub intervals : KeyIntervals

abbrev pub single : ActorId → Discovery
single a = record { actor_ids = a ∷ []; intervals = [] }

-- The only actor of a vector of size 1.
abbrev only : List ActorId → Result ActorId
only (a ∷ []) = ok a
only _ = err invalid_argument

unfoldable pub get_by_key : Key → Discovery → Result ActorId
get_by_key k d = only d.actor_ids

unfoldable pub get_random : Discovery → Result ActorId
get_random d = only d.actor_ids

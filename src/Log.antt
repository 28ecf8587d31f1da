-- ===== src/Log.antt =====
-- src/common/log: a log line, from the constructor of a Log to its destructor. The state is what has
-- gone to the two standard streams.
use Prim.Native.String.{String, ◌++◌}
use simple_db.Base.{List, [], ◌∷◌}

pub data LogLevel : Type 0 where
  debug info error : LogLevel

pub record Streams : Type 0 where
  pub cout : String
  pub cerr : String

unfoldable pub print_level : LogLevel → String
print_level debug = "[DEBUG]\t"
print_level info = "[INFO]\t"
print_level error = "[ERROR]\t"

-- get_stream() << text
unfoldable pub write : LogLevel → String → Streams → Streams
write debug text s = record s { cout = s.cout ++ text }
write info text s = record s { cout = s.cout ++ text }
write error text s = record s { cerr = s.cerr ++ text }

-- The constructor.
unfoldable pub create : LogLevel → Streams → Streams
unfolding write print_level
create level s = write level (print_level level) s

-- The destructor.
unfoldable pub destroy : LogLevel → Streams → Streams
unfolding write
destroy level s = write level "\n" s

-- The operators << of a statement, from the first on.
unfoldable pub write_all : LogLevel → List String → Streams → Streams
unfolding write
write_all level [] s = s
write_all level (text ∷ texts) s = write_all level texts (write level text s)

-- A statement that logs: `Log` is a temporary, which ends with the statement.
unfoldable pub log : LogLevel → List String → Streams → Streams
unfolding create write_all destroy
log level texts s = destroy level (write_all level texts (create level s))

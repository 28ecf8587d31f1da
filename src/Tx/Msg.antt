-- ===== src/Tx/Msg.antt =====
-- src/tx/msg.
mod Types
mod Header
mod Create
mod Sent
pub mod Equal
pub mod Order
pub mod Print
pub use Types.*
unfoldable pub use Header.*
unfoldable pub use Create.*
unfoldable pub use Sent.*

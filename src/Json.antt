-- ===== src/Json.antt =====
-- JSON values, objects and the readers of their fields.
mod Value
mod Laws
mod Read
unfoldable pub use Value.*
pub use Laws.*
unfoldable pub use Read.*

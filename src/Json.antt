-- ===== src/Json.antt =====
-- The dynamic values of a listener's `Config` (`interface{}` in Go), as `encoding/json` and the panel
-- build them, and maps from texts to such values.
mod Values
mod Laws
unfoldable pub use Values.*
pub use Laws.*

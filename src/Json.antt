-- ===== src/Json.antt =====
-- The JSON reader and writer (daemon/src/json.hpp).
pub mod Double
pub mod Value
pub mod Text
pub mod Reader
pub mod Write
pub mod Parse
pub mod Strings
pub mod Escaping
pub mod Quoting
pub mod Printed
pub mod Rounds
pub mod ItemRounds
pub mod MemberRounds
pub mod Containers
pub mod RoundTrip
pub mod Progress
pub mod Outcome
pub mod Nesting
pub mod Ascii
pub mod Plain

-- ===== src/Wire/Record.antt =====
-- Whole records: a sequence of fields written by one Writer, and read back by one Reader, as the
-- record codecs of the packages above do with wire.go.
-- A Field is the call of a Write method with its value, a Shape the call of the Read method.
mod Defs
mod Fields
pub mod Puts
pub mod RoundTrip
unfoldable pub use Defs.*
pub use Fields.*

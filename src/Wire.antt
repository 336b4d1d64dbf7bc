-- ===== src/Wire.antt =====
-- wire/wire.go: bounds-checked reads and fixed-size writes of byte records.
pub mod Reader
pub mod Writer
pub mod Record
pub mod Positions
pub mod Examples
use open_rfc_go.Base.{ℕ, ℤ}
use Prim.Native.String.{String}

-- The sentinels with what their messages name: context, field, and the numbers.
pub data Error : Type 0 where
  short_read : String → String → ℕ → ℕ → ℕ → Error
  trailing_bytes : String → ℕ → Error
  negative_length : String → String → ℤ → Error

-- An empty context is replaced.
unfoldable pub context_or_default : String → String
context_or_default String.[] = "byte record"
context_or_default (String.◌∷◌ c s) = String.◌∷◌ c s

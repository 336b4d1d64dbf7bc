-- ===== src/Wire/Writer.antt =====
-- wire.go: the Writer, over a record whose length is fixed when it is made.
use open_rfc_go.Base.{
  ℕ, ℤ, pos, negsuc, ◌+◌, ◌-◌, ◌≤◌, ◌<◌, ◌≡◌, Option, none, some, List, [], ◌∷◌, ◌++◌, take, length,
  length-splice, take-splice, replicate, splice, arith, ltb, ◌==◌, if◌then◌else◌, Result, ok, err,
}
use open_rfc_go.Base.Stateful.{Method}
use open_rfc_go.Base.Bytes.{put_uint16_be, put_uint32_be, of_int32}
use open_rfc_go.Wire.{Error, short_read, trailing_bytes, negative_length, context_or_default}
use Prim.Native.String.{String}

pub record Writer : Type 0 where
  pub bytes : List ℕ
  pub context : String
  pub offset : ℕ

unfoldable pub new_writer : ℤ → String → Result Error Writer
new_writer (negsuc n) context =
    err (negative_length (context_or_default context) "length" (negsuc n))
new_writer (pos n) context =
    ok (record { bytes = replicate n 0; context = context_or_default context; offset = 0 })

unfoldable pub remaining : Writer → ℕ
remaining w = length w.bytes - w.offset

unfoldable pub ensure : Writer → ℕ → String → Option Error
ensure w n field =
    if ltb (remaining w) n then some (short_read w.context field n w.offset (remaining w)) else none

abbrev pub after_put : List ℕ → Writer → Writer
after_put bytes w = record w {
  bytes = splice w.bytes w.offset bytes;
  offset = w.offset + length bytes;
}

-- A write of `bytes` that `ensure` has let through.
unfoldable pub put : List ℕ → String → Method Writer Error (Unit {0})
put bytes field w = elim (ensure w (length bytes) field) [
  | some e ↦ (err e, w)
  | none ↦ (ok tt, after_put bytes w)
]

unfoldable pub write_uint8 : ℕ → String → Method Writer Error (Unit {0})
write_uint8 v field w = put (v ∷ []) field w

unfoldable pub write_uint16_be : ℕ → String → Method Writer Error (Unit {0})
write_uint16_be v field w = put (put_uint16_be v) field w

unfoldable pub write_uint32_be : ℕ → String → Method Writer Error (Unit {0})
write_uint32_be v field w = put (put_uint32_be v) field w

unfoldable pub write_int32_be : ℤ → String → Method Writer Error (Unit {0})
write_int32_be z field w = write_uint32_be (of_int32 z) field w

unfoldable pub write_bytes : List ℕ → String → Method Writer Error (Unit {0})
write_bytes bytes field w = put bytes field w

unfoldable pub finish : Writer → Result Error (List ℕ)
finish w = if remaining w == 0 then ok w.bytes else err (trailing_bytes w.context (remaining w))

-- The part that has been filled.
abbrev pub written : Writer → List ℕ
written w = take w.offset w.bytes

pub record IsValid (w : Writer) : Type 0 where
  pub within : w.offset ≤ length w.bytes

-- A write that fits appends its bytes and keeps the record's length.
pub put_fits :
    (bs : List ℕ) (field : String) (w : Writer)
    → w.offset + length bs ≤ length w.bytes
    → (put bs field w ≡ (ok tt, after_put bs w))
      × (written (after_put bs w) ≡ written w ++ bs)
      × (length (after_put bs w).bytes ≡ length w.bytes)
unfolding put ensure remaining
put_fits bs field w h = (
  ground arith,
  take-splice w.bytes bs w.offset (omega arith),
  length-splice w.bytes bs w.offset h,
)

-- One that does not fit is refused, and changes nothing.
pub put_short :
    (bs : List ℕ) (field : String) (w : Writer)
    → remaining w < length bs
    → put bs field w ≡ (err (short_read w.context field (length bs) w.offset (remaining w)), w)
unfolding put ensure
put_short bs field w h = ground arith

pub finish_full : (w : Writer) → length w.bytes ≤ w.offset → finish w ≡ ok w.bytes
unfolding finish remaining
finish_full w h = ground arith

-- ===== src/Wire/Reader.antt =====
-- wire.go: the Reader. A read returns its outcome and the reader afterwards.
use open_rfc_go.Base.{
  ℕ, ℤ, pos, negsuc, ◌+◌, ◌-◌, ◌≤◌, ◌<◌, ◌≡◌, Option, none, some, List, take, drop, length,
  length-drop, get_or, arith, ltb, ◌==◌, if◌then◌else◌, Result, ok, err,
}
use open_rfc_go.Base.Stateful.{Method}
use open_rfc_go.Base.Bytes.{uint16_be, uint32_be, uint32_le, to_int32}
use open_rfc_go.Wire.{Error, short_read, trailing_bytes, negative_length, context_or_default}
use Prim.Native.String.{String}

pub record Reader : Type 0 where
  pub bytes : List ℕ
  pub context : String
  pub offset : ℕ

unfoldable pub new_reader : List ℕ → String → Reader
new_reader bytes context = record {
  bytes = bytes;
  context = context_or_default context;
  offset = 0;
}

unfoldable pub remaining : Reader → ℕ
remaining r = length r.bytes - r.offset

-- `nil` is `none`.
unfoldable pub ensure : Reader → ℤ → String → Option Error
ensure r (negsuc n) field = some (negative_length r.context field (negsuc n))
ensure r (pos n) field =
    if ltb (remaining r) n then some (short_read r.context field n r.offset (remaining r)) else none

-- A read of `n` bytes that `ensure` has let through yields `a`.
unfoldable pub checked {ℓ} : {A : Type ℓ} → Reader → ℤ → String → A → ℕ → Result Error A × Reader
checked r n field a width = elim (ensure r n field) [
  | some e ↦ (err e, r)
  | none ↦ (ok a, record r { offset = r.offset + width })
]

unfoldable pub read_uint8 : String → Method Reader Error ℕ
read_uint8 field r = checked r (pos 1) field (get_or r.bytes r.offset 0) 1

unfoldable pub read_uint16_be : String → Method Reader Error ℕ
read_uint16_be field r = checked r (pos 2) field (uint16_be (drop r.offset r.bytes)) 2

unfoldable pub read_uint32_be : String → Method Reader Error ℕ
read_uint32_be field r = checked r (pos 4) field (uint32_be (drop r.offset r.bytes)) 4

unfoldable pub read_uint32_le : String → Method Reader Error ℕ
read_uint32_le field r = checked r (pos 4) field (uint32_le (drop r.offset r.bytes)) 4

-- Go returns int32(0) beside an error.
abbrev pub as_int32 : Result Error ℕ × Reader → Result Error ℤ × Reader
as_int32 (ok v, r) = (ok (to_int32 v), r)
as_int32 (err e, r) = (err e, r)

unfoldable pub read_int32_be : String → Method Reader Error ℤ
unfolding read_uint32_be
read_int32_be field r = as_int32 (read_uint32_be field r)

unfoldable pub read_int32_le : String → Method Reader Error ℤ
unfolding read_uint32_le
read_int32_le field r = as_int32 (read_uint32_le field r)

abbrev pub width_of : ℤ → ℕ
width_of (pos n) = n
width_of (negsuc n) = 0

unfoldable pub read_bytes : ℤ → String → Method Reader Error (List ℕ)
read_bytes n field r = checked r n field (take (width_of n) (drop r.offset r.bytes)) (width_of n)

unfoldable pub skip : ℤ → String → Method Reader Error (Unit {0})
skip n field r = checked r n field tt (width_of n)

unfoldable pub finish : Reader → Result Error (Unit {0})
finish r = if remaining r == 0 then ok tt else err (trailing_bytes r.context (remaining r))

-- The bytes that are still to be read.
abbrev pub unread : Reader → List ℕ
unread r = drop r.offset r.bytes

pub remaining-unread : (r : Reader) → remaining r ≡ length (unread r)
unfolding remaining
remaining-unread r = omega (arith, length-drop r.offset r.bytes)

pub ensure_fits :
    (r : Reader) (n : ℕ) (field : String) → n ≤ remaining r → ensure r (pos n) field ≡ none
unfolding ensure
ensure_fits r n field h = ground arith

pub ensure_short :
    (r : Reader) (n : ℕ) (field : String)
    → remaining r < n
    → ensure r (pos n) field ≡ some (short_read r.context field n r.offset (remaining r))
unfolding ensure
ensure_short r n field h = ground arith

pub checked_fits {ℓ} :
    {A : Type ℓ} (r : Reader) (n : ℕ) (field : String) (a : A)
    → n ≤ remaining r
    → checked r (pos n) field a n ≡ (ok a, record r { offset = r.offset + n })
unfolding checked
checked_fits r n field a h = rw (ensure_fits r n field h, checked)

pub checked_short {ℓ} :
    {A : Type ℓ} (r : Reader) (n : ℕ) (field : String) (a : A)
    → remaining r < n
    → checked r (pos n) field a n ≡ (err (short_read r.context field n r.offset (remaining r)), r)
unfolding checked
checked_short r n field a h = rw (ensure_short r n field h, checked)

pub finish_done : (r : Reader) → remaining r ≡ 0 → finish r ≡ ok tt
unfolding finish
finish_done r h = ground arith

pub finish_trailing :
    (r : Reader) → 0 < remaining r → finish r ≡ err (trailing_bytes r.context (remaining r))
unfolding finish
finish_trailing r h = ground arith

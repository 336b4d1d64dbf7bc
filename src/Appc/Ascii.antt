-- ===== src/Appc/Ascii.antt =====
-- appc.go: text in fields of a fixed width. A Go string is the list of its bytes.
use open_rfc_go.Base.{
  ℕ, zero, suc, ◌-◌, ◌≤◌, ◌≡◌, refl, ◌≢◌, ◌⊎◌, Bool, true, false, not, ◌&&◌, ◌||◌, List, [], ◌∷◌,
  ◌++◌, length, length-append, length-replicate, replicate, All, arith, leb, ltb, ◌==◌,
  if◌then◌else◌, Result, ok, err,
}
use open_rfc_go.Appc.{Error, range, protocol, wrong_length}

abbrev pub is_printable : ℕ → Bool
is_printable b = leb 32 b && leb b 126

-- printableASCII
unfoldable pub all_printable : List ℕ → Bool
all_printable [] = true
all_printable (b ∷ bs) = is_printable b && all_printable bs

unfoldable pub encode_fixed_ascii : List ℕ → Result Error (List ℕ)
encode_fixed_ascii value =
    if not (all_printable value) || ltb 8 (length value)
    then err range
    else ok (value ++ replicate (8 - length value) (if length value == 0 then 0 else 32))

-- The bytes are NUL or printable.
unfoldable pub all_text : List ℕ → Bool
all_text [] = true
all_text (b ∷ bs) = (b == 0 || is_printable b) && all_text bs

-- trimRightBytes for NUL and space: what is left of each suffix tells whether its head stays.
unfoldable pub trim_right : List ℕ → List ℕ
trim_right [] = []
trim_right (b ∷ bs) = elim (trim_right bs) [
  | [] ↦ if b == 0 || b == 32 then [] else b ∷ []
  | c ∷ cs ↦ b ∷ c ∷ cs
]

unfoldable pub decode_fixed_ascii : List ℕ → Result Error (List ℕ)
decode_fixed_ascii value = if all_text value then ok (trim_right value) else err protocol

unfoldable pub encode_padded_ascii : List ℕ → ℕ → ℕ → Result Error (List ℕ)
encode_padded_ascii value width padding =
    if not (all_printable value) || ltb width (length value)
    then err range
    else ok (value ++ replicate (width - length value) padding)

-- The bytes before the first padding byte, and those from it on.
unfoldable pub before_padding : ℕ → List ℕ → List ℕ
before_padding padding [] = []
before_padding padding (b ∷ bs) = if b == padding then [] else b ∷ before_padding padding bs

unfoldable pub from_padding : ℕ → List ℕ → List ℕ
from_padding padding [] = []
from_padding padding (b ∷ bs) = if b == padding then b ∷ bs else from_padding padding bs

unfoldable pub all_equal : ℕ → List ℕ → Bool
all_equal padding [] = true
all_equal padding (b ∷ bs) = b == padding && all_equal padding bs

unfoldable pub decode_padded_ascii : List ℕ → ℕ → Result Error (List ℕ)
decode_padded_ascii encoded padding =
    if not (all_printable (before_padding padding encoded))
    then err protocol
    else if not (all_equal padding (from_padding padding encoded))
    then err protocol
    else ok (before_padding padding encoded)

unfoldable pub exact_bytes : List ℕ → ℕ → Result Error (List ℕ)
exact_bytes value n = if length value == n then ok value else err (wrong_length (length value))

-- hexIDPattern: 16 characters of 0-9 and A-F.
abbrev pub is_hex : ℕ → Bool
is_hex b = (leb 48 b && leb b 57) || (leb 65 b && leb b 70)

unfoldable pub all_hex : List ℕ → Bool
all_hex [] = true
all_hex (b ∷ bs) = is_hex b && all_hex bs

unfoldable pub fixed_hex_id : List ℕ → Result Error (List ℕ)
fixed_hex_id value = if all_hex value && length value == 16 then ok value else err range

pub exact_bytes_ok : (bs : List ℕ) (n : ℕ) → length bs ≡ n → exact_bytes bs n ≡ ok bs
unfolding exact_bytes
exact_bytes_ok bs n h = ground arith

-- A value without the padding byte stands before it.
before-append :
    (padding : ℕ) (value : List ℕ) (n : ℕ)
    → All (λ b. b ≢ padding) value
    → (before_padding padding (value ++ replicate n padding) ≡ value)
      × (from_padding padding (value ++ replicate n padding) ≡ replicate n padding)
unfolding before_padding from_padding
before-append padding [] zero h = (refl, refl)
before-append padding [] (suc n) h = (ground arith, ground arith)
before-append padding (b ∷ bs) n (p, h) = ground (arith, before-append padding bs n h)

all_equal-replicate : (padding n : ℕ) → all_equal padding (replicate n padding) ≡ true
unfolding all_equal
all_equal-replicate padding zero = refl
all_equal-replicate padding (suc n) = ground (arith, all_equal-replicate padding n)

-- A printable value that fits and has no padding byte in it is encoded to exactly the width, and
-- decoded again.
pub decode-encode_padded_ascii :
    (value : List ℕ) (width padding : ℕ)
    → all_printable value ≡ true
    → length value ≤ width
    → All (λ b. b ≢ padding) value
    → (bs : List ℕ) × (encode_padded_ascii value width padding ≡ ok bs)
      × (length bs ≡ width)
      × (decode_padded_ascii bs padding ≡ ok value)
unfolding encode_padded_ascii decode_padded_ascii
decode-encode_padded_ascii value width padding p h free =
    let n = width - length value in
    let (front, back) = before-append padding value n free in
    let accepted : (not (all_printable value) || ltb width (length value)) ≡ false = ground arith in
    (
      value ++ replicate n padding,
      rw accepted refl,
      omega (arith, length-append value (replicate n padding), length-replicate n padding),
      rw (front, back, p, all_equal-replicate padding n) refl,
    )

-- What ends in no NUL or space is not trimmed, whatever padding follows it.
trim-padding : (pad n : ℕ) → (pad ≡ 0) ⊎ (pad ≡ 32) → trim_right (replicate n pad) ≡ []
unfolding trim_right
trim-padding pad zero h = refl
trim-padding pad (suc n) h = ground (arith, trim-padding pad n h)

-- The last byte, where there is one, stays.
abbrev pub EndsInText : List ℕ → Type 0
EndsInText [] = Unit
EndsInText (b ∷ []) = (b ≢ 0) × (b ≢ 32)
EndsInText (b ∷ c ∷ cs) = EndsInText (c ∷ cs)

trim-append :
    (value : List ℕ) (pad n : ℕ)
    → EndsInText value
    → (pad ≡ 0) ⊎ (pad ≡ 32)
    → trim_right (value ++ replicate n pad) ≡ value
unfolding trim_right
trim-append [] pad n e h = trim-padding pad n h
trim-append (b ∷ []) pad n e h = ground (arith, trim-padding pad n h)
trim-append (b ∷ c ∷ cs) pad n e h = rw (trim-append (c ∷ cs) pad n e h) refl

all_text-append :
    (value : List ℕ) (pad n : ℕ)
    → all_printable value ≡ true
    → (pad ≡ 0) ⊎ (pad ≡ 32)
    → all_text (value ++ replicate n pad) ≡ true
unfolding all_text all_printable
all_text-append [] pad zero p h = refl
all_text-append [] pad (suc n) p h = ground (arith, all_text-append [] pad n refl h)
all_text-append (b ∷ bs) pad n p h = ground (arith, all_text-append bs pad n)

-- A printable name of at most 8 bytes that does not end in a space is encoded to 8 bytes, and
-- decoded again.
pub decode-encode_fixed_ascii :
    (value : List ℕ)
    → all_printable value ≡ true
    → length value ≤ 8
    → EndsInText value
    → (bs : List ℕ) × (encode_fixed_ascii value ≡ ok bs)
      × (length bs ≡ 8)
      × (decode_fixed_ascii bs ≡ ok value)
unfolding encode_fixed_ascii decode_fixed_ascii
decode-encode_fixed_ascii value p h e =
    let pad : ℕ = if length value == 0 then 0 else 32 in
    let a_pad : (pad ≡ 0) ⊎ (pad ≡ 32) = ground arith in
    let accepted : (not (all_printable value) || ltb 8 (length value)) ≡ false = ground arith in
    (
      value ++ replicate (8 - length value) pad,
      rw accepted refl,
      omega (
        arith,
        length-append value (replicate (8 - length value) pad),
        length-replicate (8 - length value) pad,
      ),
      rw
          (
            all_text-append value pad (8 - length value) p a_pad,
            trim-append value pad (8 - length value) e a_pad,
          )
          refl,
    )

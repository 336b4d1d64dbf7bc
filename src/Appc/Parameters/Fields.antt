-- ===== src/Appc/Parameters/Fields.antt =====
-- records.go: what the reads of setup parameters yield.
use open_rfc_go.Base.{
  ℕ, zero, suc, ◌+◌, ◌≤◌, ◌≡◌, ◌≢◌, refl, true, All, List, ◌++◌, length, length-replicate,
  replicate, drop, arith, ok,
}
use open_rfc_go.Appc.{all_zero}
use open_rfc_go.Appc.Ascii.{
  all_printable, fixed_hex_id, encode_padded_ascii, decode_padded_ascii, decode-encode_padded_ascii,
}
use open_rfc_go.Appc.Parameters.{read_zero_reserved, read_padded, read_hex_id}
use open_rfc_go.Wire.Positions.{reader_at, read_bytes_next}
use Prim.Native.String.{String}

-- A text that survives its encoding in a field of `width` bytes.
pub record IsPaddable (value : List ℕ) (width padding : ℕ) : Type 0 where
  pub printable : all_printable value ≡ true
  pub short : length value ≤ width
  pub unpadded : All (λ b. b ≢ padding) value

pub padded_bytes :
    (value : List ℕ) (width padding : ℕ)
    → IsPaddable value width padding
    → (bs : List ℕ) × (encode_padded_ascii value width padding ≡ ok bs)
      × (length bs ≡ width)
      × (decode_padded_ascii bs padding ≡ ok value)
padded_bytes value width padding v =
    decode-encode_padded_ascii value width padding v.printable v.short v.unpadded

all_zero-replicate : (n : ℕ) → all_zero (replicate n 0) ≡ true
unfolding all_zero
all_zero-replicate zero = refl
all_zero-replicate (suc n) = ground (arith, all_zero-replicate n)

module _ (bs : List ℕ) (context : String) (at : ℕ) (field : String) where
  pub read_padded_next :
      (n padding : ℕ) (x value rest : List ℕ)
      → drop at bs ≡ x ++ rest
      → length x ≡ n
      → 1 ≤ n
      → decode_padded_ascii x padding ≡ ok value
      → read_padded field n padding (reader_at bs context at)
        ≡ (ok value, reader_at bs context (at + n))
  unfolding read_padded
  read_padded_next n padding x value rest h k some_byte d =
      rw (read_bytes_next bs context at field n x rest h k some_byte, d) refl

  pub read_zero_next :
      (n : ℕ) (rest : List ℕ)
      → drop at bs ≡ replicate n 0 ++ rest
      → 1 ≤ n
      → read_zero_reserved field n (reader_at bs context at)
        ≡ (ok tt, reader_at bs context (at + n))
  unfolding read_zero_reserved
  read_zero_next n rest h some_byte =
      rw
        (
          read_bytes_next bs context at field n (replicate n 0) rest h (length-replicate n 0)
              some_byte,
          all_zero-replicate n,
        )
        refl

  pub read_hex_next :
      (x rest : List ℕ)
      → drop at bs ≡ x ++ rest
      → length x ≡ 16
      → fixed_hex_id x ≡ ok x
      → read_hex_id field (reader_at bs context at) ≡ (ok x, reader_at bs context (at + 16))
  unfolding read_hex_id
  read_hex_next x rest h k d =
      rw (read_bytes_next bs context at field 16 x rest h k (omega arith), d) refl

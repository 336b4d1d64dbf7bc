-- ===== src/Rfcpro/Examples.antt =====
-- Runs of rfcpro.go, and its theorems at concrete headers.
use open_rfc_go.Base.{ℕ, pos, ◌≡◌, refl, List, [], ◌∷◌, ◌++◌, length, arith, ok, err}
use open_rfc_go.Rfcpro.{
  short_header, extended, encode_field_header, field_header_byte_length, validate_value_length,
  header_bytes, decode_field_header_limited, decode_length, decode_extended,
}
use open_rfc_go.Rfcpro.RoundTrip.{
  canonical, within, field_header, StandsIn, decode-encode_field_header,
  decode_field_header_limited-accepts,
}
use open_rfc_go.Rfcpro.Truncation.{decode-encode_truncated}

-- 70000 bytes need the extended header.
abbrev long_header : List ℕ
long_header = 2 ∷ 5 ∷ 255 ∷ 255 ∷ 0 ∷ 1 ∷ 17 ∷ 112 ∷ []

encode_long : encode_field_header 517 (pos 70000) ≡ ok long_header
unfolding encode_field_header field_header_byte_length validate_value_length header_bytes
encode_long = refl

decode_long :
    decode_field_header_limited long_header (pos 100000) ≡ ok (field_header 517 70000 extended 8)
unfolding decode_field_header_limited validate_value_length decode_length decode_extended
decode_long = refl

decode-encode_field_header_example :
    (bs : List ℕ) × (encode_field_header 517 (pos 70000) ≡ ok bs)
    × (decode_field_header_limited (bs ++ 9 ∷ []) (pos 100000)
        ≡ within 100000 (field_header 517 70000 (canonical 70000) (length bs)))
decode-encode_field_header_example =
    decode-encode_field_header 517 70000 100000 (9 ∷ []) (omega arith) (omega arith) (omega arith)

-- Five bytes: one of the extended length's four.
decode-encode_truncated_example :
    decode_field_header_limited (2 ∷ 5 ∷ 255 ∷ 255 ∷ 0 ∷ []) (pos 100000) ≡ err (short_header 4 4 1)
decode-encode_truncated_example =
    decode-encode_truncated 517 5 100000 (pos 70000) long_header encode_long (omega arith)
      (omega arith)

decode_field_header_limited-accepts_example :
    StandsIn long_header 100000 (field_header 517 70000 extended 8)
decode_field_header_limited-accepts_example =
    decode_field_header_limited-accepts long_header 100000 (field_header 517 70000 extended 8)
      (omega arith) decode_long

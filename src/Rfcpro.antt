-- ===== src/Rfcpro.antt =====
-- internal/rfcpro/rfcpro.go: the tag and length in front of every parameter value.
pub mod RoundTrip
pub mod Truncation
pub mod Examples
use open_rfc_go.Base.{
  ℕ, ℤ, pos, negsuc, ◌-◌, ◌^◌, List, ◌++◌, length, take, drop, leb, ltb, ◌==◌, if◌then◌else◌,
  Result, ok, err, guard, ◌>>=◌, ◌>>◌,
}
use open_rfc_go.Base.Bytes.{put_uint16_be, put_uint32_be, uint16_be, uint32_be, to_int32, of_int32}

abbrev pub extended_length_sentinel : ℕ
extended_length_sentinel = 65535

abbrev pub compact_length_max : ℕ
compact_length_max = extended_length_sentinel - 1

abbrev pub value_length_max : ℕ
value_length_max = 2147483647

pub data LengthEncoding : Type 0 where
  compact extended : LengthEncoding

-- With the numbers that the messages carry: the value; the offset, the bytes needed and those
-- left; the extended length; the length and the limit.
pub data Error : Type 0 where
  range negative_length : ℤ → Error
  short_header : ℕ → ℕ → ℕ → Error
  limit_exceeded : ℕ → ℕ → Error

pub record FieldHeader : Type 0 where
  pub tag : ℕ
  pub length : ℕ
  pub encoding : LengthEncoding
  pub bytes_consumed : ℕ

-- The length itself, where it is in range.
unfoldable pub validate_value_length : ℤ → Result Error ℕ
validate_value_length (negsuc n) = err (range (negsuc n))
validate_value_length (pos n) = if ltb value_length_max n then err (range (pos n)) else ok n

unfoldable pub field_header_byte_length : ℤ → Result Error ℕ
field_header_byte_length n = do
  v ← validate_value_length n
  ok (if leb v compact_length_max then 4 else 8)

-- uint16(length) and uint32(int32(length)) stay as they are here: the length is in range.
unfoldable pub header_bytes : ℕ → ℤ → ℕ → List ℕ
header_bytes tag n byte_length =
    if byte_length == 4
    then put_uint16_be tag ++ put_uint16_be (of_int32 n)
    else put_uint16_be tag ++ put_uint16_be extended_length_sentinel ++ put_uint32_be (of_int32 n)

unfoldable pub encode_field_header : ℕ → ℤ → Result Error (List ℕ)
encode_field_header tag n = do
  byte_length ← field_header_byte_length n
  ok (header_bytes tag n byte_length)

-- What stands behind the tag, with the limit that was validated.
unfoldable pub decode_extended : ℕ → ℕ → ℤ → Result Error FieldHeader
decode_extended tag limit (negsuc n) = err (negative_length (negsuc n))
decode_extended tag limit (pos n) =
    if ltb limit n
    then err (limit_exceeded n limit)
    else ok (record { tag = tag; length = n; encoding = extended; bytes_consumed = 8 })

unfoldable pub decode_length : List ℕ → ℕ → ℕ → Result Error FieldHeader
decode_length buf tag limit =
    if ltb (length buf) 4
    then err (short_header 2 2 (length buf - 2))
    else let compact_length = uint16_be (drop 2 buf) in
      if compact_length == extended_length_sentinel
      then (if ltb (length buf) 8
          then err (short_header 4 4 (length buf - 4))
          else decode_extended tag limit (to_int32 (uint32_be (drop 4 buf))))
      else if ltb limit compact_length
      then err (limit_exceeded compact_length limit)
      else ok
          (record { tag = tag; length = compact_length; encoding = compact; bytes_consumed = 4 })

-- At most eight bytes are looked at.
unfoldable pub decode_field_header_limited : List ℕ → ℤ → Result Error FieldHeader
decode_field_header_limited bytes max_value_length = do
  limit ← validate_value_length max_value_length
  let buf : List ℕ = take 8 bytes
  guard (leb 2 (length buf)) (short_header 0 2 (length buf))
  decode_length buf (uint16_be buf) limit

unfoldable pub decode_field_header : List ℕ → Result Error FieldHeader
decode_field_header bytes = decode_field_header_limited bytes (pos value_length_max)

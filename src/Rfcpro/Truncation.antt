-- ===== src/Rfcpro/Truncation.antt =====
-- rfcpro.go: a header of which only the first bytes arrived.
use open_rfc_go.Base.{
  ℕ, ℤ, negsuc, ◌≢◌, subst, zero, suc, pos, ◌≤◌, ◌<◌, ◌-◌, ◌/◌, ◌%◌, ◌^◌, ◌≡◌, ap, List, [], ◌∷◌,
  ◌++◌, length, take, arith, dec_lt, ok, err, ltb, if◌then◌else◌,
}
use open_rfc_go.Base.Bytes.{put_uint16_be, put_uint32_be}
use open_rfc_go.Rfcpro.{
  extended_length_sentinel, compact_length_max, value_length_max, Error, short_header,
  validate_value_length, encode_field_header, field_header_byte_length, decode_length,
  decode_field_header_limited,
}
use open_rfc_go.Rfcpro.RoundTrip.{encode_compact, encode_extended}

-- What the decoder misses where only `k` bytes of a header arrived: the tag, the compact length or
-- the extended one.
abbrev pub missing : ℕ → Error
missing k =
    if ltb k 2
    then short_header 0 2 k
    else if ltb k 4
    then short_header 2 2 (k - 2)
    else short_header 4 4 (k - 4)

cut_compact :
    (a b c d k limit : ℕ)
    → k < 4
    → limit ≤ value_length_max
    → decode_field_header_limited (take k (a ∷ b ∷ c ∷ d ∷ [])) (pos limit) ≡ err (missing k)
unfolding decode_field_header_limited validate_value_length decode_length
cut_compact a b c d zero limit h l = ground arith
cut_compact a b c d (suc zero) limit h l = ground arith
cut_compact a b c d (suc (suc zero)) limit h l = ground arith
cut_compact a b c d (suc (suc (suc zero))) limit h l = ground arith
cut_compact a b c d (suc (suc (suc (suc k)))) limit h l = absurd (omega arith)

cut_extended :
    (a b e f g i k limit : ℕ)
    → k < 8
    → limit ≤ value_length_max
    → decode_field_header_limited (take k (a ∷ b ∷ 255 ∷ 255 ∷ e ∷ f ∷ g ∷ i ∷ [])) (pos limit)
      ≡ err (missing k)
unfolding decode_field_header_limited validate_value_length decode_length
cut_extended a b e f g i zero limit h l = ground arith
cut_extended a b e f g i (suc zero) limit h l = ground arith
cut_extended a b e f g i (suc (suc zero)) limit h l = ground arith
cut_extended a b e f g i (suc (suc (suc zero))) limit h l = ground arith
cut_extended a b e f g i (suc (suc (suc (suc zero)))) limit h l = ground arith
cut_extended a b e f g i (suc (suc (suc (suc (suc zero))))) limit h l = ground arith
cut_extended a b e f g i (suc (suc (suc (suc (suc (suc zero)))))) limit h l = ground arith
cut_extended a b e f g i (suc (suc (suc (suc (suc (suc (suc zero))))))) limit h l = ground arith
cut_extended a b e f g i (suc (suc (suc (suc (suc (suc (suc (suc k)))))))) limit h l =
    absurd (omega arith)

abbrev IsMissing : ℕ → ℕ → List ℕ → Type 0
IsMissing k limit bs = decode_field_header_limited (take k bs) (pos limit) ≡ err (missing k)

never_negative : (tag n : ℕ) (bs : List ℕ) → encode_field_header tag (negsuc n) ≢ ok bs
unfolding encode_field_header field_header_byte_length validate_value_length
never_negative tag n bs e = cc

encoded-bound :
    (tag n : ℕ) (bs : List ℕ) → encode_field_header tag (pos n) ≡ ok bs → n ≤ value_length_max
unfolding encode_field_header field_header_byte_length validate_value_length
encoded-bound tag n bs made = ground arith

-- No part of an encoded header's front that is shorter than the header is decoded to anything: the
-- decoder reports which part of the header is cut, and how much of that part arrived.
pub decode-encode_truncated :
    (tag k limit : ℕ) (n : ℤ) (bs : List ℕ)
    → encode_field_header tag n ≡ ok bs
    → k < length bs
    → limit ≤ value_length_max
    → decode_field_header_limited (take k bs) (pos limit) ≡ err (missing k)
decode-encode_truncated tag k limit (pos n) bs made cut l = elim (dec_lt compact_length_max n) [
  | no small ↦
      let form = put_uint16_be tag ++ put_uint16_be n in
      let same : form ≡ bs = cc (encode_compact tag n (omega arith), made) in
      subst (IsMissing k limit) same (
        cut_compact (tag / 256 % 256) (tag % 256) (n / 256 % 256) (n % 256) k limit
          (omega (arith, ap length same)) l)
  | yes large ↦
      let form = put_uint16_be tag ++ put_uint16_be extended_length_sentinel ++ put_uint32_be n in
      let same : form ≡ bs = cc (encode_extended tag n large (encoded-bound tag n bs made), made) in
      subst (IsMissing k limit) same (
        cut_extended (tag / 256 % 256) (tag % 256) (n / 2 ^ 24 % 256) (n / 2 ^ 16 % 256)
          (n / 256 % 256) (n % 256) k limit (omega (arith, ap length same)) l)
]
decode-encode_truncated tag k limit (negsuc n) bs made cut l = absurd (never_negative tag n bs made)

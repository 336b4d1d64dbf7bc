-- ===== src/Rfcpro/RoundTrip.antt =====
-- rfcpro.go: encoding and decoding undo each other, and every limit is kept.
use open_rfc_go.Base.{
  ℕ, pos, ◌≤◌, ◌<◌, ◌+◌, ◌*◌, ◌/◌, ◌%◌, ◌^◌, ◌≡◌, ◌∙◌, sym, ap, ap₂, subst, ◌≢◌, List, [], ◌∷◌,
  ◌++◌, length, take, All, arith, dec_lt, Result, ok, err, leb, if◌then◌else◌,
}
use open_rfc_go.Base.Bytes.{
  IsByte, put-uint16_be, put-uint32_be, put_uint16_be, put_uint32_be, uint32_be,
}
use open_rfc_go.Rfcpro.{
  extended_length_sentinel, compact_length_max, value_length_max, LengthEncoding, compact, extended,
  Error, limit_exceeded, FieldHeader, validate_value_length, field_header_byte_length, header_bytes,
  encode_field_header, decode_extended, decode_length, decode_field_header_limited,
}

-- The canonical encoding of a length.
abbrev pub canonical : ℕ → LengthEncoding
canonical n = if leb n compact_length_max then compact else extended

-- The bytes that a header stands for.
abbrev pub header_form : FieldHeader → List ℕ
header_form h = put_uint16_be h.tag ++ (elim h.encoding [
  | compact ↦ put_uint16_be h.length
  | extended ↦ put_uint16_be extended_length_sentinel ++ put_uint32_be h.length
])

pub encode_compact :
    (tag n : ℕ)
    → n ≤ compact_length_max
    → encode_field_header tag (pos n) ≡ ok (put_uint16_be tag ++ put_uint16_be n)
unfolding encode_field_header field_header_byte_length validate_value_length header_bytes
encode_compact tag n h = ground arith

pub encode_extended :
    (tag n : ℕ)
    → compact_length_max < n
    → n ≤ value_length_max
    → encode_field_header tag (pos n)
      ≡ ok (put_uint16_be tag ++ put_uint16_be extended_length_sentinel ++ put_uint32_be n)
unfolding encode_field_header field_header_byte_length validate_value_length header_bytes
encode_extended tag n h l = ground arith

-- What the decoder answers where it found a length: the limit decides.
abbrev pub within : ℕ → FieldHeader → Result Error FieldHeader
within limit h = if leb h.length limit then ok h else err (limit_exceeded h.length limit)

abbrev pub field_header : ℕ → ℕ → LengthEncoding → ℕ → FieldHeader
field_header t n e size = record { tag = t; length = n; encoding = e; bytes_consumed = size }

decode_compact :
    (a b c d limit : ℕ) (rest : List ℕ)
    → c * 256 + d < extended_length_sentinel
    → limit ≤ value_length_max
    → decode_field_header_limited (a ∷ b ∷ c ∷ d ∷ rest) (pos limit)
      ≡ within limit (field_header (a * 256 + b) (c * 256 + d) compact 4)
unfolding decode_field_header_limited validate_value_length decode_length
decode_compact a b c d limit rest h l = ground arith

decode_extended_lem :
    (a b e f g i limit : ℕ) (rest : List ℕ)
    → uint32_be (e ∷ f ∷ g ∷ i ∷ rest) < 2 ^ 31
    → limit ≤ value_length_max
    → decode_field_header_limited (a ∷ b ∷ 255 ∷ 255 ∷ e ∷ f ∷ g ∷ i ∷ rest) (pos limit)
      ≡ within limit (field_header (a * 256 + b) (uint32_be (e ∷ f ∷ g ∷ i ∷ rest)) extended 8)
unfolding decode_field_header_limited validate_value_length decode_length decode_extended
decode_extended_lem a b e f g i limit rest h l = ground arith

compact-canonical : (n : ℕ) → n ≤ compact_length_max → compact ≡ canonical n
compact-canonical n h = ground arith

extended-canonical : (n : ℕ) → compact_length_max < n → extended ≡ canonical n
extended-canonical n h = ground arith

field_header-eq :
    {t t' n n' : ℕ} {e e' : LengthEncoding}
    → t ≡ t'
    → n ≡ n'
    → e ≡ e'
    → (size : ℕ) → field_header t n e size ≡ field_header t' n' e' size
field_header-eq p q r size = rw (p, q, r)

-- The header of a tag and a length in range is decoded, whatever follows it, to that tag and
-- length if the limit allows the length, and refused with the limit if it does not.
pub decode-encode_field_header :
    (tag n limit : ℕ) (rest : List ℕ)
    → tag < 2 ^ 16
    → n ≤ value_length_max
    → limit ≤ value_length_max
    → (bs : List ℕ) × (encode_field_header tag (pos n) ≡ ok bs)
      × (decode_field_header_limited (bs ++ rest) (pos limit)
          ≡ within limit (field_header tag n (canonical n) (length bs)))
decode-encode_field_header tag n limit rest t h l = elim (dec_lt compact_length_max n) [
  | no small ↦ (
    put_uint16_be tag ++ put_uint16_be n,
    encode_compact tag n (omega arith),
    decode_compact (tag / 256 % 256) (tag % 256) (n / 256 % 256) (n % 256) limit rest (omega arith)
          l
        ∙ ap (within limit)
            (field_header-eq (omega arith) (omega arith) (compact-canonical n (omega arith)) 4),
  )
  | yes large ↦ (
    put_uint16_be tag ++ put_uint16_be extended_length_sentinel ++ put_uint32_be n,
    encode_extended tag n large h,
    decode_extended_lem (tag / 256 % 256) (tag % 256) (n / 2 ^ 24 % 256) (n / 2 ^ 16 % 256)
          (n / 256 % 256) (n % 256) limit rest (omega arith) l
        ∙ ap (within limit)
            (field_header-eq (omega arith) (omega arith) (extended-canonical n large) 8),
  )
]

-- The header is accepted, and its form stands at the front of the bytes.
abbrev pub StandsIn : List ℕ → ℕ → FieldHeader → Type 0
StandsIn bs limit h =
    (h.length ≤ limit) × (h.bytes_consumed ≤ length bs) × (take h.bytes_consumed bs ≡ header_form h)

within-StandsIn :
    (bs : List ℕ) (limit : ℕ) (k h : FieldHeader)
    → within limit k ≡ ok h
    → k.bytes_consumed ≤ length bs
    → take k.bytes_consumed bs ≡ header_form k
    → StandsIn bs limit h
within-StandsIn bs limit k h e fits front = elim (dec_lt limit k.length) [
  | yes over ↦ ground arith
  | no room ↦
      let same : k ≡ h = ground arith in subst (StandsIn bs limit) same (omega arith, fits, front)
]

limit-valid :
    (bs : List ℕ) (limit : ℕ) {h : FieldHeader}
    → decode_field_header_limited bs (pos limit) ≡ ok h
    → limit ≤ value_length_max
unfolding decode_field_header_limited validate_value_length
limit-valid bs limit e = ground arith

-- The extended form of four more bytes.
extended_form :
    (a b e f g i : ℕ) (rest : List ℕ)
    → All IsByte (a ∷ b ∷ e ∷ f ∷ g ∷ i ∷ [])
    → put_uint16_be (a * 256 + b)
        ++ put_uint16_be extended_length_sentinel
        ++ put_uint32_be (uint32_be (e ∷ f ∷ g ∷ i ∷ rest))
      ≡ a ∷ b ∷ 255 ∷ 255 ∷ e ∷ f ∷ g ∷ i ∷ []
extended_form a b e f g i rest (pa, (pb, (pe, (pf, (pg, (pi, _)))))) =
    ap₂ (λ x y. x ++ put_uint16_be extended_length_sentinel ++ y) (put-uint16_be a b pa pb)
      (put-uint32_be e f g i pe pf pg pi)

decode_negative :
    (a b limit : ℕ) (bs : List ℕ)
    → 2 ^ 31 ≤ uint32_be bs
    → 4 ≤ length bs
    → {h : FieldHeader} → decode_field_header_limited (a ∷ b ∷ 255 ∷ 255 ∷ bs) (pos limit) ≢ ok h
unfolding decode_field_header_limited validate_value_length decode_length decode_extended
decode_negative a b limit (e ∷ f ∷ g ∷ i ∷ rest) big long h = ground arith
decode_negative a b limit _ big long h = absurd (omega arith)

accepts_extended :
    (a b limit : ℕ) (bs : List ℕ) (h : FieldHeader)
    → All IsByte (a ∷ b ∷ bs)
    → decode_field_header_limited (a ∷ b ∷ 255 ∷ 255 ∷ bs) (pos limit) ≡ ok h
    → StandsIn (a ∷ b ∷ 255 ∷ 255 ∷ bs) limit h
unfolding decode_field_header_limited validate_value_length decode_length
accepts_extended a b limit (e ∷ f ∷ g ∷ i ∷ rest) h (pa, (pb, (pe, (pf, (pg, (pi, _)))))) eq =
    elim (dec_lt (uint32_be (e ∷ f ∷ g ∷ i ∷ rest)) (2 ^ 31)) [
      | yes positive ↦
          let bs : List ℕ = a ∷ b ∷ 255 ∷ 255 ∷ e ∷ f ∷ g ∷ i ∷ rest in
          let l : limit ≤ value_length_max = limit-valid bs limit eq in
          within-StandsIn bs limit _ h
            (sym (decode_extended_lem a b e f g i limit rest positive l) ∙ eq) (omega arith)
            (sym (extended_form a b e f g i rest (pa, (pb, (pe, (pf, (pg, (pi, tt))))))))
      | no negative ↦
          absurd (decode_negative a b limit (e ∷ f ∷ g ∷ i ∷ rest) (omega arith) (omega arith) eq)
    ]
accepts_extended a b limit [] h p eq = ground arith
accepts_extended a b limit (_ ∷ []) h p eq = ground arith
accepts_extended a b limit (_ ∷ _ ∷ []) h p eq = ground arith
accepts_extended a b limit (_ ∷ _ ∷ _ ∷ []) h p eq = ground arith

-- What is accepted is a header whose length is within the limit, and whose form stands at the
-- front of the bytes.
pub decode_field_header_limited-accepts :
    (bs : List ℕ) (limit : ℕ) (h : FieldHeader)
    → All IsByte bs
    → decode_field_header_limited bs (pos limit) ≡ ok h
    → StandsIn bs limit h
unfolding decode_field_header_limited validate_value_length decode_length decode_extended
decode_field_header_limited-accepts [] limit h b e = ground arith
decode_field_header_limited-accepts (a ∷ []) limit h b e = ground arith
decode_field_header_limited-accepts (a ∷ b ∷ []) limit h p e = ground arith
decode_field_header_limited-accepts (a ∷ b ∷ c ∷ []) limit h p e = ground arith
decode_field_header_limited-accepts (a ∷ b ∷ c ∷ d ∷ rest) limit h (pa, (pb, (pc, (pd, p)))) e =
    elim (dec_lt (c * 256 + d) extended_length_sentinel) [
      | yes small ↦
          let bs : List ℕ = a ∷ b ∷ c ∷ d ∷ rest in
          let l : limit ≤ value_length_max = limit-valid bs limit e in
          within-StandsIn bs limit _ h (sym (decode_compact a b c d limit rest small l) ∙ e)
            (omega arith)
            (sym (ap₂ (λ x y. x ++ y) (put-uint16_be a b pa pb) (put-uint16_be c d pc pd)))
      | no sentinel ↦
          let front : (a ∷ b ∷ 255 ∷ 255 ∷ rest) ≡ a ∷ b ∷ c ∷ d ∷ rest =
            ap₂ (λ x y. a ∷ b ∷ x ∷ y ∷ rest) (omega arith) (omega arith) in
          subst (λ bs. StandsIn bs limit h) front
            (accepts_extended a b limit rest h (pa, (pb, p))
              (ap (λ bs. decode_field_header_limited bs (pos limit)) front ∙ e))
    ]

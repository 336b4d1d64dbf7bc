-- ===== src/Wire/Record/Fields.antt =====
-- One field: `encode` and `decode` are inverse, and the calls of wire.go compute them.
use open_rfc_go.Base.{
  ℕ, ◌+◌, ◌≤◌, ◌<◌, ◌≡◌, refl, ◌∙◌, ap, List, [], ◌∷◌, ◌++◌, take, length, take-append, All, arith,
  ok, err, get_or, get_or-drop,
}
use open_rfc_go.Base.Bytes.{
  IsByte, to_int32-of_int32, of_int32-to_int32, of_int32-lt, uint32_be-put, put-uint16_be,
  put-uint32_be, uint16_be, uint32_be, to_int32, of_int32,
}
use open_rfc_go.Wire.{short_read}
use open_rfc_go.Wire.Reader
use open_rfc_go.Wire.Reader.{Reader, unread, checked_fits, checked_short}
use open_rfc_go.Wire.Writer
use open_rfc_go.Wire.Writer.{Writer, written, put_fits, put_short}
use open_rfc_go.Wire.Record.Defs.{
  Field, uint8, uint16, uint32, int32, bytes, Shape, a_uint8, a_uint16, a_uint32, an_int32,
  some_bytes, IsField, shape, width, encode, decode, write, read,
}
use Prim.Native.String.{String}

pub length-encode : (f : Field) → length (encode f) ≡ width (shape f)
length-encode (uint8 v) = refl
length-encode (uint16 v) = refl
length-encode (uint32 v) = refl
length-encode (int32 z) = refl
length-encode (bytes bs) = refl

pub decode-encode :
    (f : Field) (rest : List ℕ) → IsField f → decode (shape f) (encode f ++ rest) ≡ f
decode-encode (uint8 v) rest h = refl
decode-encode (uint16 v) rest h = ap uint16 (omega arith)
decode-encode (uint32 v) rest h = ap uint32 (omega arith)
decode-encode (int32 z) rest h =
    ap int32 (ap to_int32 (uint32_be-put (of_int32 z) rest (of_int32-lt z)) ∙ to_int32-of_int32 z h)
decode-encode (bytes bs) rest h = ap bytes (take-append bs rest)

pub encode-decode :
    (s : Shape) (bs : List ℕ)
    → All IsByte bs
    → width s ≤ length bs
    → encode (decode s bs) ≡ take (width s) bs
encode-decode a_uint8 (a ∷ bs) b h = refl
encode-decode a_uint8 _ b h = absurd (omega arith)
encode-decode a_uint16 (a ∷ b ∷ bs) (p, (q, _)) h = put-uint16_be a b p q
encode-decode a_uint16 _ b h = absurd (omega arith)
encode-decode a_uint32 (a ∷ b ∷ c ∷ d ∷ bs) (p, (q, (r, (t, _)))) h = put-uint32_be a b c d p q r t
encode-decode a_uint32 _ b h = absurd (omega arith)
encode-decode an_int32 (a ∷ b ∷ c ∷ d ∷ bs) (p, (q, (r, (t, _)))) h =
    rw (of_int32-to_int32 (uint32_be (a ∷ b ∷ c ∷ d ∷ [])) (omega arith))
      (put-uint32_be a b c d p q r t)
encode-decode an_int32 _ b h = absurd (omega arith)
encode-decode (some_bytes n) bs b h = refl

pub read_fits :
    (name : String) (s : Shape) (r : Reader)
    → width s ≤ Reader.remaining r
    → read name s r ≡ (ok (decode s (unread r)), record r { offset = r.offset + width s })
unfolding read Reader.read_uint8 Reader.read_uint16_be Reader.read_uint32_be Reader.read_int32_be
    Reader.read_bytes
read_fits name a_uint8 r h =
    rw (checked_fits r 1 name (get_or r.bytes r.offset 0) h, get_or-drop r.offset r.bytes 0)
read_fits name a_uint16 r h = rw (checked_fits r 2 name (uint16_be (unread r)) h)
read_fits name a_uint32 r h = rw (checked_fits r 4 name (uint32_be (unread r)) h)
read_fits name an_int32 r h = rw (checked_fits r 4 name (uint32_be (unread r)) h)
read_fits name (some_bytes n) r h = rw (checked_fits r n name (take n (unread r)) h)

pub read_short :
    (name : String) (s : Shape) (r : Reader)
    → Reader.remaining r < width s
    → read name s r ≡ (err (short_read r.context name (width s) r.offset (Reader.remaining r)), r)
unfolding read Reader.read_uint8 Reader.read_uint16_be Reader.read_uint32_be Reader.read_int32_be
    Reader.read_bytes
read_short name a_uint8 r h = rw (checked_short r 1 name (get_or r.bytes r.offset 0) h)
read_short name a_uint16 r h = rw (checked_short r 2 name (uint16_be (unread r)) h)
read_short name a_uint32 r h = rw (checked_short r 4 name (uint32_be (unread r)) h)
read_short name an_int32 r h = rw (checked_short r 4 name (uint32_be (unread r)) h)
read_short name (some_bytes n) r h = rw (checked_short r n name (take n (unread r)) h)

pub write-put :
    (name : String) (f : Field) (w : Writer) → write name f w ≡ Writer.put (encode f) name w
unfolding write Writer.write_uint8 Writer.write_uint16_be Writer.write_uint32_be
    Writer.write_int32_be Writer.write_bytes
write-put name (uint8 v) w = refl
write-put name (uint16 v) w = refl
write-put name (uint32 v) w = refl
write-put name (int32 z) w = refl
write-put name (bytes bs) w = refl

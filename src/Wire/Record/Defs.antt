-- ===== src/Wire/Record/Defs.antt =====
-- Fields, shapes, and the sequences of calls of wire.go that write and read them.
use open_rfc_go.Base.{
  ℕ, ℤ, pos, ◌+◌, ◌^◌, ◌<◌, List, [], ◌∷◌, ◌++◌, take, drop, length, All, Result, ok, err, get_or,
}
use open_rfc_go.Base.Stateful.{Method, pure, ◌>>=◌, ◌>>◌}
use open_rfc_go.Base.Bytes.{
  IsByte, IsInt32, uint16_be, uint32_be, to_int32, of_int32, put_uint16_be, put_uint32_be,
}
use open_rfc_go.Wire.{Error}
use open_rfc_go.Wire.Reader
use open_rfc_go.Wire.Reader.{Reader}
use open_rfc_go.Wire.Writer
use open_rfc_go.Wire.Writer.{Writer}
use Prim.Native.String.{String}

pub data Field : Type 0 where
  uint8 uint16 uint32 : ℕ → Field
  int32 : ℤ → Field
  bytes : List ℕ → Field

pub data Shape : Type 0 where
  a_uint8 a_uint16 a_uint32 an_int32 : Shape
  some_bytes : ℕ → Shape

abbrev pub IsField : Field → Type 0
IsField (uint8 v) = v < 2 ^ 8
IsField (uint16 v) = v < 2 ^ 16
IsField (uint32 v) = v < 2 ^ 32
IsField (int32 z) = IsInt32 z
IsField (bytes bs) = All IsByte bs

abbrev pub shape : Field → Shape
shape (uint8 v) = a_uint8
shape (uint16 v) = a_uint16
shape (uint32 v) = a_uint32
shape (int32 z) = an_int32
shape (bytes bs) = some_bytes (length bs)

abbrev pub width : Shape → ℕ
width a_uint8 = 1
width a_uint16 = 2
width a_uint32 = 4
width an_int32 = 4
width (some_bytes n) = n

-- What the calls put on the wire and take off it, said of byte lists alone.
abbrev pub encode : Field → List ℕ
encode (uint8 v) = v ∷ []
encode (uint16 v) = put_uint16_be v
encode (uint32 v) = put_uint32_be v
encode (int32 z) = put_uint32_be (of_int32 z)
encode (bytes bs) = bs

abbrev pub decode : Shape → List ℕ → Field
decode a_uint8 bs = uint8 (get_or bs 0 0)
decode a_uint16 bs = uint16 (uint16_be bs)
decode a_uint32 bs = uint32 (uint32_be bs)
decode an_int32 bs = int32 (to_int32 (uint32_be bs))
decode (some_bytes n) bs = bytes (take n bs)

abbrev pub encode_all : List Field → List ℕ
encode_all [] = []
encode_all (f ∷ fs) = encode f ++ encode_all fs

abbrev pub decode_all : List Shape → List ℕ → List Field
decode_all [] bs = []
decode_all (s ∷ ss) bs = decode s bs ∷ decode_all ss (drop (width s) bs)

abbrev pub total : List Shape → ℕ
total [] = 0
total (s ∷ ss) = width s + total ss

-- The calls.
unfoldable pub write : String → Field → Method Writer Error (Unit {0})
write name (uint8 v) w = Writer.write_uint8 v name w
write name (uint16 v) w = Writer.write_uint16_be v name w
write name (uint32 v) w = Writer.write_uint32_be v name w
write name (int32 z) w = Writer.write_int32_be z name w
write name (bytes bs) w = Writer.write_bytes bs name w

unfoldable pub read : String → Shape → Method Reader Error Field
read name a_uint8 = do v ← Reader.read_uint8 name; pure (uint8 v)
read name a_uint16 = do v ← Reader.read_uint16_be name; pure (uint16 v)
read name a_uint32 = do v ← Reader.read_uint32_be name; pure (uint32 v)
read name an_int32 = do z ← Reader.read_int32_be name; pure (int32 z)
read name (some_bytes n) = do bs ← Reader.read_bytes (pos n) name; pure (bytes bs)

-- The first call that fails ends the sequence.
unfoldable pub write_all : String → List Field → Method Writer Error (Unit {0})
write_all name [] = pure tt
write_all name (f ∷ fs) = do write name f; write_all name fs

unfoldable pub read_all : String → List Shape → Method Reader Error (List Field)
read_all name [] = pure []
read_all name (s ∷ ss) = do f ← read name s; fs ← read_all name ss; pure (f ∷ fs)

-- NewWriter for the whole length, the writes, and Finish.
abbrev finish_written : Result Error (Unit {0}) × Writer → Result Error (List ℕ)
finish_written (ok _, w) = Writer.finish w
finish_written (err e, w) = err e

unfoldable pub compose : ℤ → String → List Field → Result Error (List ℕ)
compose n context fs = elim (Writer.new_writer n context) [
  | ok w ↦ finish_written (write_all context fs w)
  | err e ↦ err e
]

abbrev after_finish : List Field → Result Error (Unit {0}) → Result Error (List Field)
after_finish fs (ok _) = ok fs
after_finish fs (err e) = err e

abbrev finish_read : Result Error (List Field) × Reader → Result Error (List Field)
finish_read (ok fs, r) = after_finish fs (Reader.finish r)
finish_read (err e, r) = err e

-- NewReader over the record, the reads, and Finish.
unfoldable pub parse : String → List Shape → List ℕ → Result Error (List Field)
parse context ss bs = finish_read (read_all context ss (Reader.new_reader bs context))

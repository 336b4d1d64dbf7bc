-- ===== src/Wire/Examples.antt =====
-- Runs of wire.go, and its theorems at concrete records.
use open_rfc_go.Base.{ℕ, pos, negsuc, ◌≡◌, refl, List, [], ◌∷◌, map, arith, ok, err, length}
use open_rfc_go.Wire.{short_read, trailing_bytes, negative_length, context_or_default}
use open_rfc_go.Wire.Reader
use open_rfc_go.Wire.Reader.{Reader}
use open_rfc_go.Wire.Writer
use open_rfc_go.Wire.Record
use open_rfc_go.Base.Bytes.{IsInt32}
use open_rfc_go.Wire.Record.{
  Field, uint8, uint16, int32, bytes, a_uint16, a_uint32, shape, compose, parse, encode_all,
}
use open_rfc_go.Wire.Record.RoundTrip.{parse-compose, parse-inverse, parse_long, parse_short}

abbrev fields : List Field
fields = uint8 7 ∷ int32 (negsuc 1) ∷ bytes (1 ∷ 2 ∷ []) ∷ uint16 515 ∷ []

abbrev record_bytes : List ℕ
record_bytes = 7 ∷ 255 ∷ 255 ∷ 255 ∷ 254 ∷ 1 ∷ 2 ∷ 2 ∷ 3 ∷ []

parse_run : parse "run" (map shape fields) record_bytes ≡ ok fields
unfolding parse Record.read_all Record.read Reader.new_reader Reader.read_uint8
    Reader.read_uint16_be Reader.read_int32_be Reader.read_bytes Reader.finish Reader.ensure
    Reader.remaining context_or_default Reader.checked
parse_run = refl

parse-compose_example :
    (bs : List ℕ) × (compose (pos 9) "run" fields ≡ ok bs)
    × (parse "run" (map shape fields) bs ≡ ok fields)
unfolding IsInt32
parse-compose_example = parse-compose "run" fields (omega arith)

parse-inverse_example : (compose (pos 9) "run" fields ≡ ok record_bytes) × (length record_bytes ≡ 9)
parse-inverse_example =
    parse-inverse "run" (map shape fields) record_bytes fields (omega arith) parse_run

parse_long_example : parse "run" (a_uint16 ∷ []) (1 ∷ 2 ∷ 3 ∷ []) ≡ err (trailing_bytes "run" 1)
unfolding context_or_default
parse_long_example = parse_long "run" (a_uint16 ∷ []) (1 ∷ 2 ∷ 3 ∷ []) (omega arith)

parse_short_example :
    (n at left : ℕ) × (parse "run" (a_uint16 ∷ a_uint32 ∷ []) (1 ∷ 2 ∷ 3 ∷ [])
      ≡ err (short_read "run" "run" n at left))
unfolding context_or_default
parse_short_example = parse_short "run" (a_uint16 ∷ a_uint32 ∷ []) (1 ∷ 2 ∷ 3 ∷ []) (omega arith)

-- A negative length is refused before anything is read.
skip_negative :
    Reader.skip (negsuc 0) "gap" (Reader.new_reader (1 ∷ []) "")
    ≡ (err (negative_length "byte record" "gap" (negsuc 0)), Reader.new_reader (1 ∷ []) "")
unfolding Reader.skip Reader.checked Reader.ensure Reader.new_reader context_or_default
skip_negative = refl

-- The unwritten last byte of a record is reported.
compose_run : compose (pos 10) "run" fields ≡ err (trailing_bytes "run" 1)
unfolding compose Record.write_all Record.write Writer.new_writer Writer.write_uint8
    Writer.write_uint16_be Writer.write_int32_be Writer.write_uint32_be Writer.write_bytes
    Writer.put Writer.finish Writer.ensure Writer.remaining context_or_default
compose_run = refl

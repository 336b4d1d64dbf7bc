-- ===== src/Appc/DataInfo.antt =====
-- fragmentation.go: the operation information of an F_ASEND_DATA record, written and read.
use open_rfc_go.Base.{
  ℕ, pos, Bool, ◌+◌, ◌≤◌, ◌≡◌, refl, List, ◌∷◌, ◌++◌, length, replicate, arith, ok, err, true,
  false, ◌==◌, ltb, ◌||◌, ◌&&◌, take, drop, if◌then◌else◌,
}
use open_rfc_go.Base.Bytes.{uint16_be, put_uint16_be}
use open_rfc_go.Appc.{
  range, DataOperationInfo, max_application_data_fragment_length, write_data_info,
  encode_async_data_info, all_zero, read_data_info, decode_data_operation_info,
}
use open_rfc_go.Wire.{context_or_default}
use open_rfc_go.Wire.Reader
use open_rfc_go.Wire.Reader.{Reader}
use Prim.Native.String.{String}
use open_rfc_go.Wire.Writer

-- The 32 bytes.
abbrev pub info_bytes : ℕ → ℕ → ℕ → List ℕ
info_bytes n communication connection =
    (0 ∷ 0 ∷ put_uint16_be n)
    ++ (replicate 24 0 ++ (put_uint16_be communication ++ put_uint16_be connection))

abbrev at_offset : List ℕ → ℕ → Reader
at_offset bs at = record { bytes = bs; context = "APPC data operation info"; offset = at }

pub encode_bytes :
    (n communication connection : ℕ)
    → 1 ≤ n
    → n ≤ max_application_data_fragment_length
    → encode_async_data_info (pos n) communication connection
      ≡ ok (info_bytes n communication connection)
unfolding encode_async_data_info write_data_info Writer.new_writer Writer.write_uint16_be
    Writer.write_bytes Writer.put Writer.ensure Writer.remaining Writer.finish
encode_bytes n communication connection lo hi =
    let fine : (ltb n 1 || ltb max_application_data_fragment_length n) ≡ false = ground arith in
    rw fine refl

-- A word, or the reserved bytes, at a place of the record.
read_word :
    (bs : List ℕ) (at : ℕ) (field : String)
    → at + 2 ≤ length bs
    → Reader.read_uint16_be field (at_offset bs at)
      ≡ (ok (uint16_be (drop at bs)), at_offset bs (at + 2))
unfolding Reader.read_uint16_be Reader.checked Reader.ensure Reader.remaining
read_word bs at field h = ground arith

read_reserved :
    (bs : List ℕ) (at : ℕ) (field : String)
    → at + 24 ≤ length bs
    → Reader.read_bytes (pos 24) field (at_offset bs at)
      ≡ (ok (take 24 (drop at bs)), at_offset bs (at + 24))
unfolding Reader.read_bytes Reader.checked Reader.ensure Reader.remaining
read_reserved bs at field h = ground arith

-- What a record of 32 bytes is decoded to.
abbrev pub decoded : List ℕ → DataOperationInfo
decoded bs = record {
  data_length = uint16_be (drop 2 bs);
  communication_index = uint16_be (drop 28 bs);
  connection_index = uint16_be (drop 30 bs);
}

read_exact :
    (bs : List ℕ) (first zeros : Bool)
    → length bs ≡ 32
    → (uint16_be (drop 0 bs) == 0) ≡ first
    → all_zero (take 24 (drop 4 bs)) ≡ zeros
    → (read_data_info (at_offset bs 0)).0 ≡ (if first && zeros then ok (decoded bs) else err range)
unfolding read_data_info
read_exact bs false zeros h f z = rw (read_word bs 0 "reserved" (omega arith), f) refl
read_exact bs true false h f z =
    rw
      (
        read_word bs 0 "reserved" (omega arith),
        f,
        read_word bs 2 "dataLength" (omega arith),
        read_reserved bs 4 "reserved2" (omega arith),
        z,
      )
      refl
read_exact bs true true h f z =
    rw
      (
        read_word bs 0 "reserved" (omega arith),
        f,
        read_word bs 2 "dataLength" (omega arith),
        read_reserved bs 4 "reserved2" (omega arith),
        z,
        read_word bs 28 "communicationIndex" (omega arith),
        read_word bs 30 "connectionIndex" (omega arith),
        Reader.finish_done (at_offset bs 32) (unfold Reader.remaining in omega arith),
      )
      refl

pub decode_exact :
    (bs : List ℕ)
    → length bs ≡ 32
    → decode_data_operation_info bs ≡ (
        if uint16_be (drop 0 bs) == 0 && all_zero (take 24 (drop 4 bs))
        then ok (decoded bs)
        else err range)
unfolding decode_data_operation_info Reader.new_reader context_or_default
decode_exact bs h =
    let sized : (length bs == 32) ≡ true = ground arith in rw sized (read_exact bs _ _ h refl refl)

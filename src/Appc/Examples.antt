-- ===== src/Appc/Examples.antt =====
-- Runs of fragmentation.go, and its theorems at concrete records.
use open_rfc_go.Base.{
  ℕ, pos, ◌≡◌, refl, ◌↔◌, List, [], ◌∷◌, ◌++◌, length, replicate, arith, ok, err,
}
use open_rfc_go.Base.Bytes.{put_uint16_be}
use open_rfc_go.Wire.{context_or_default}
use open_rfc_go.Wire.Reader
use open_rfc_go.Appc.{
  read_data_info, all_zero, wrong_length, encode_async_data_info, decode_async_data_info,
  decode_data_operation_info, decode_incoming_data_operation_info, outgoing_fragment_semantics,
  validate_final_sap_parameters,
}
use open_rfc_go.Appc.DataInfo.{info_bytes}
use open_rfc_go.Appc.RoundTrip.{
  data_info, decode-encode_async_data_info, decode_async_data_info-inverse,
}
use open_rfc_go.Appc.Fragments.{
  Role, Plays, semantics_of, outgoing_fragment_semantics_lem, validate_final_sap_parameters_iff,
}

-- A reply frames its payload by the word at offset 10, not by the one at offset 2.
incoming_length :
    decode_incoming_data_operation_info
      (0 ∷ 0 ∷ 109 ∷ 96 ∷ (replicate 6 0 ++ (1 ∷ 4 ∷ (replicate 16 0 ++ (0 ∷ 5 ∷ 0 ∷ 6 ∷ [])))))
    ≡ ok (data_info 260 5 6)
unfolding decode_incoming_data_operation_info
incoming_length = refl

short_refused : decode_data_operation_info (1 ∷ 2 ∷ []) ≡ err (wrong_length 2)
unfolding decode_data_operation_info
short_refused = refl

decode-encode_async_data_info_example :
    (bs : List ℕ) × (encode_async_data_info (pos 28000) 1 65535 ≡ ok bs)
    × (decode_async_data_info bs ≡ ok (data_info 28000 1 65535))
decode-encode_async_data_info_example =
    decode-encode_async_data_info 28000 1 65535 (omega arith) (omega arith) (omega arith)
      (omega arith)

decode_run : decode_async_data_info (info_bytes 28000 1 2) ≡ ok (data_info 28000 1 2)
unfolding decode_async_data_info decode_data_operation_info read_data_info Reader.new_reader
    context_or_default Reader.read_uint16_be Reader.read_bytes Reader.checked Reader.ensure
    Reader.remaining Reader.finish all_zero
decode_run = refl

decode_async_data_info-inverse_example :
    encode_async_data_info (pos 28000) 1 2 ≡ ok (info_bytes 28000 1 2)
decode_async_data_info-inverse_example =
    decode_async_data_info-inverse (info_bytes 28000 1 2) (data_info 28000 1 2) (omega arith)
      decode_run

outgoing_fragment_semantics_lem_example :
    (role : Role) × Plays 42 50 role × (outgoing_fragment_semantics 42 50 ≡ semantics_of role)
outgoing_fragment_semantics_lem_example = outgoing_fragment_semantics_lem 42 50 (omega arith)

validate_final_sap_parameters_iff_example :
    (validate_final_sap_parameters (0 ∷ 0 ∷ 1 ∷ 4 ∷ 0 ∷ 0 ∷ 0 ∷ 0 ∷ []) 260 ≡ ok tt) ↔ (
      (tail : List ℕ) × (length tail ≡ 4)
      × ((0 ∷ 0 ∷ 1 ∷ 4 ∷ 0 ∷ 0 ∷ 0 ∷ 0 ∷ []) ≡ 0 ∷ 0 ∷ (put_uint16_be 260 ++ tail)))
validate_final_sap_parameters_iff_example =
    validate_final_sap_parameters_iff (0 ∷ 0 ∷ 1 ∷ 4 ∷ 0 ∷ 0 ∷ 0 ∷ 0 ∷ []) 260 (omega arith)
      (omega arith)

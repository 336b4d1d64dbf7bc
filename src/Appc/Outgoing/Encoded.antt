-- ===== src/Appc/Outgoing/Encoded.antt =====
-- fragmentation.go: every step of a plan is encoded, and the record holds what the step says.
use open_rfc_go.Base.{
  ℕ, ◌≤◌, ◌<◌, ◌^◌, ◌≡◌, refl, ap, ◌∙◌, Bool, true, false, List, [], ◌∷◌, ◌++◌, append-nil, length,
  drop, arith, ltb, leb, ◌==◌, ok,
}
use open_rfc_go.Appc.{outgoing_fragment_semantics}
use open_rfc_go.Appc.Header.{Header, decode_header}
use open_rfc_go.Appc.Records.RoundTrip.{IsInput, encode_record-Holds}
use open_rfc_go.Appc.Outgoing.{
  OutgoingDataPlanInput, OutgoingDataFragment, header_input, fragment_at,
  snapshot_outgoing_data_fragment, natural, same_flag, is_expected, check_slice, fragment_info,
  encode_outgoing_data_fragment,
}
use open_rfc_go.Appc.Outgoing.Slices.{slice_of-short}

-- A record of the fragment: its header, and its data with the SAP parameters behind it.
pub record IsRecordOf (f : OutgoingDataFragment) (bs : List ℕ) : Type 0 where
  pub header : Header
  pub decoded : decode_header bs ≡ ok header
  pub function_part : header.payload_info.function_code ≡ f.function_code
  pub conversation_part : header.conversation_id ≡ f.conversation_id
  pub sequence_part : header.sequence_number ≡ f.sequence_number
  pub info_part : header.info ≡ f.info
  pub vector_part : header.vector ≡ f.vector
  pub content_part : drop 80 bs ≡ f.application_data ++ f.final_sap_parameters

abbrev pub Encodes : OutgoingDataFragment → Type 0
Encodes f = (bs : List ℕ) × (encode_outgoing_data_fragment f ≡ ok bs) × IsRecordOf f bs

same_number : (n : ℕ) → (n == n) ≡ true
same_number n = ground arith

same_flag_refl : (b : Bool) → same_flag b b ≡ true
same_flag_refl true = refl
same_flag_refl false = refl

-- The fragment that stands at a place is what the place asks for.
fragment_at-is_expected :
    (input : OutgoingDataPlanInput) (id : List ℕ) (single : Bool) (count index : ℕ)
    → is_expected
        (fragment_at input id single count index)
        (outgoing_fragment_semantics index count).sap_parameter_length
        (outgoing_fragment_semantics index count)
      ≡ true
unfolding is_expected
fragment_at-is_expected input id single count index =
    let sem = outgoing_fragment_semantics index count in
    rw
      (
        same_number sem.function_code,
        same_flag_refl sem.is_final,
        same_number sem.info,
        same_number sem.vector,
        same_number sem.sap_parameter_length,
      )
      refl

pub not_above : (n k : ℕ) → n ≤ k → leb n k ≡ true
not_above n k h = ground arith

pub below : (n k : ℕ) → n < k → ltb n k ≡ true
below n k h = ground arith

snapshot_ok :
    (f : OutgoingDataFragment)
    → length f.conversation_id ≡ 8
    → length f.application_data ≤ 28000
    → length f.final_sap_parameters ≤ 8
    → snapshot_outgoing_data_fragment f ≡ ok f
unfolding snapshot_outgoing_data_fragment
snapshot_ok f c a s = rw (c, not_above _ _ a, not_above _ _ s) refl

-- The bounds of the numbers that a place has.
semantics_bounds :
    (index count : ℕ)
    → ((outgoing_fragment_semantics index count).function_code < 256)
      × ((outgoing_fragment_semantics index count).info < 256)
      × ((outgoing_fragment_semantics index count).vector < 256)
      × ((outgoing_fragment_semantics index count).sap_parameter_length < 65536)
unfolding outgoing_fragment_semantics
semantics_bounds index count = (ground arith, ground arith, ground arith, ground arith)

header_input-IsInput :
    (f : OutgoingDataFragment)
    → IsInput 0 f.header
    → f.function_code < 256
    → f.info < 256
    → f.vector < 256
    → f.sequence_number < 2 ^ 32
    → length f.conversation_id ≡ 8
    → IsInput f.function_code (header_input f)
unfolding header_input
header_input-IsInput f v function info vector sequence id = record {
  function_byte = function;
  protocol_byte = v.protocol_byte;
  mode_byte = v.mode_byte;
  uid_word = v.uid_word;
  gateway_word = v.gateway_word;
  error_word = v.error_word;
  info2_byte = v.info2_byte;
  trace_byte = v.trace_byte;
  time_word = v.time_word;
  info3_byte = v.info3_byte;
  timeout_word = v.timeout_word;
  info4_byte = v.info4_byte;
  sequence_word = sequence;
  padding_word = v.padding_word;
  info_byte = info;
  vector_byte = vector;
  appc_word = v.appc_word;
  sap_word = v.sap_word;
  id_length = id;
}

-- A fragment of a plan, its slice and its operation information being accepted, is encoded.
pub fragment_at-Encodes :
    (input : OutgoingDataPlanInput) (id operation : List ℕ) (single : Bool) (count index : ℕ)
    → IsInput 0 input.header
    → length id ≡ 8
    → length input.application_data ≤ 2147483647
    → length (fragment_at input id single count index).final_sap_parameters ≤ 8
    → index < count
    → check_slice (fragment_at input id single count index) count (length input.application_data)
      ≡ ok tt
    → fragment_info (fragment_at input id single count index) count ≡ ok operation
    → length operation ≡ 32
    → Encodes (fragment_at input id single count index)
unfolding encode_outgoing_data_fragment natural header_input
fragment_at-Encodes input id operation single count index v eight bound parameters place slice info
      sized =
    let f = fragment_at input id single count index in
    let (function_byte, info_byte, vector_byte, sap_word) = semantics_bounds index count in
    let (bs, encoded, held) =
      encode_record-Holds f.function_code (header_input f) operation
        (outgoing_fragment_semantics index count).sap_parameter_length
        (f.application_data ∷ f.final_sap_parameters ∷ []) "outgoing APPC data fragment"
        (header_input-IsInput f v function_byte info_byte vector_byte v.sequence_word eight) sized
        sap_word in
    (
      bs,
      rw
          (
            snapshot_ok f eight (slice_of-short input.application_data _ _) parameters,
            not_above 1 count (omega (arith, place)),
            below index count place,
            not_above (length input.application_data) 2147483647 bound,
            fragment_at-is_expected input id single count index,
            slice,
            info,
          )
          encoded,
      record {
        header = _;
        decoded = held.decoded;
        function_part = refl;
        conversation_part = refl;
        sequence_part = refl;
        info_part = refl;
        vector_part = refl;
        content_part =
            held.content_part
            ∙ ap (λ xs. f.application_data ++ xs) (append-nil f.final_sap_parameters);
      },
    )

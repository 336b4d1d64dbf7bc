-- ===== src/Appc/Records/Examples.antt =====
-- Runs of records.go, and its theorems at concrete records.
use open_rfc_go.Base.{
  ℕ, pos, negsuc, ◌≤◌, ◌<◌, ◌≡◌, refl, none, List, [], ◌∷◌, length, replicate, take, drop, arith,
  ok,
}
use open_rfc_go.Base.Bytes.{IsInt32}
use open_rfc_go.Base.Text.{numbered, decimal_loop}
use open_rfc_go.Appc.Ascii.{all_printable, all_hex}
use open_rfc_go.Appc.Control.{encode_control_record}
use open_rfc_go.Appc.Control.RoundTrip.{control_input, encode_control_record-initialize}
use open_rfc_go.Appc.Header.{decode_header}
use open_rfc_go.Appc.Info.{
  ExtendedInfo, encode_extended_info, decode_extended_info, PartnerLogicalUnitInfoInput,
  encode_partner_logical_unit_info, decode_partner_logical_unit_info,
}
use open_rfc_go.Appc.Info.RoundTrip.{
  IsExtendedInfo, IsName, partner_info, decode-encode_extended_info,
  decode-encode_partner_logical_unit_info,
}
use open_rfc_go.Appc.Parameters.{
  ExtendedInitializeOptions, InitializeParameters, PartnerLogicalUnitParameters,
  encode_initialize_parameters, decode_initialize_parameters,
  encode_partner_logical_unit_parameters, decode_partner_logical_unit_parameters,
}
use open_rfc_go.Appc.Parameters.Options.{IsOptions}
use open_rfc_go.Appc.Parameters.Fields.{IsPaddable}
use open_rfc_go.Appc.Parameters.RoundTrip.{
  decode-encode_initialize_parameters, decode-encode_partner_logical_unit_parameters,
}
use open_rfc_go.Appc.Records.{RecordHeaderInput, encode_record}
use open_rfc_go.Appc.Records.RoundTrip.{IsInput, header_for, Holds, encode_record-Holds}

-- An input without any of its fields.
abbrev pub no_input : RecordHeaderInput
no_input = record {
  protocol = none;
  mode = none;
  uid = none;
  gateway_id = none;
  error_length = none;
  info2 = none;
  trace_level = none;
  time = none;
  info3 = none;
  timeout = none;
  info4 = none;
  sequence_number = none;
  padding = none;
  info = none;
  vector = none;
  appc_return_code = none;
  sap_return_code = none;
  conversation_id = none;
}

pub no_input-IsInput : (f : ℕ) → f < 256 → IsInput f no_input
unfolding IsInt32
no_input-IsInput f h = record {
  function_byte = h;
  protocol_byte = omega arith;
  mode_byte = omega arith;
  uid_word = omega arith;
  gateway_word = omega arith;
  error_word = omega arith;
  info2_byte = omega arith;
  trace_byte = omega arith;
  time_word = omega arith;
  info3_byte = omega arith;
  timeout_word = omega arith;
  info4_byte = omega arith;
  sequence_word = omega arith;
  padding_word = omega arith;
  info_byte = omega arith;
  vector_byte = omega arith;
  appc_word = omega arith;
  sap_word = omega arith;
  id_length = refl;
}

encode_record-Holds_example :
    (bs : List ℕ) × (encode_record 203 no_input
        (replicate 32 1)
        (pos 8)
        ((5 ∷ 6 ∷ []) ∷ (7 ∷ []) ∷ [])
        "test"
      ≡ ok bs)
    × Holds bs (header_for 203 no_input 8) (replicate 32 1) (5 ∷ 6 ∷ 7 ∷ [])
encode_record-Holds_example =
    encode_record-Holds 203 no_input (replicate 32 1) 8 ((5 ∷ 6 ∷ []) ∷ (7 ∷ []) ∷ []) "test"
      (no_input-IsInput 203 (omega arith)) refl (omega arith)

-- "AB", and no name.
two_letters-IsName : IsName (65 ∷ 66 ∷ [])
unfolding all_printable
two_letters-IsName = record {
  printable = refl;
  short = omega arith;
  ending = (ground arith, ground arith);
}

nothing-IsName : IsName []
unfolding all_printable
nothing-IsName = record { printable = refl; short = omega arith; ending = tt }

abbrev some_info : ExtendedInfo
some_info = record {
  short_destination_name = 65 ∷ 66 ∷ [];
  logical_unit_name = [];
  transaction_program_name = 65 ∷ 66 ∷ [];
  connection_type = 7;
  client_info = 1;
  communication_index = 513;
  connection_index = 2;
}

some_info-IsExtendedInfo : IsExtendedInfo some_info
some_info-IsExtendedInfo = record {
  destination_name = two_letters-IsName;
  unit_name = nothing-IsName;
  program_name = two_letters-IsName;
  type_byte = omega arith;
  client_byte = omega arith;
  communication_word = omega arith;
  connection_word = omega arith;
}

decode-encode_extended_info_example :
    (bs : List ℕ) × (encode_extended_info some_info ≡ ok bs)
    × (length bs ≡ 32)
    × (decode_extended_info bs ≡ ok some_info)
decode-encode_extended_info_example = decode-encode_extended_info some_info some_info-IsExtendedInfo

-- A name of nine letters, of which eight are sent.
abbrev some_partner : PartnerLogicalUnitInfoInput
some_partner = record {
  logical_unit_name = replicate 9 65;
  partner_host_address = replicate 16 1;
  communication_index = 3;
  connection_index = 4;
}

decode-encode_partner_logical_unit_info_example :
    (bs : List ℕ) × (encode_partner_logical_unit_info some_partner ≡ ok bs)
    × (length bs ≡ 32)
    × (decode_partner_logical_unit_info bs ≡ ok (partner_info some_partner))
unfolding all_printable
decode-encode_partner_logical_unit_info_example =
    decode-encode_partner_logical_unit_info some_partner (record {
      printable = refl;
      short = omega arith;
      prefix_ending = (ground arith, ground arith);
      host_length = refl;
      communication_word = omega arith;
      connection_word = omega arith;
    })

-- "AB" in a field that is padded with NUL or space.
two_letters-IsPaddable :
    (width padding : ℕ) → 2 ≤ width → padding < 65 → IsPaddable (65 ∷ 66 ∷ []) width padding
unfolding all_printable
two_letters-IsPaddable width padding h k = record {
  printable = refl;
  short = omega (arith, h);
  unpadded = (ground arith, (ground arith, tt));
}

abbrev some_options : ExtendedInitializeOptions
some_options = record {
  option_flags = 1;
  root_id = replicate 16 65;
  connection_id = replicate 16 48;
  connection_id_suffix = 70000;
  timeout = negsuc 0;
  keepalive_timeout = pos 300;
  export_trace = 0;
  start_type = 2;
  network_protocol = 1;
  local_address_v6 = replicate 16 9;
  long_logical_unit_name = 65 ∷ 66 ∷ [];
  operating_system_user = 65 ∷ 66 ∷ [];
  local_address_v4 = 10 ∷ 0 ∷ 0 ∷ 1 ∷ [];
  long_transaction_program_name = 65 ∷ 66 ∷ [];
}

abbrev some_parameters : InitializeParameters
some_parameters = record { client_identifier = 65 ∷ 66 ∷ []; options = some_options }

some_options-IsOptions : IsOptions some_options
unfolding all_hex IsInt32
some_options-IsOptions = record {
  root_length = refl;
  root_hex = refl;
  connection_length = refl;
  connection_hex = refl;
  suffix_word = omega arith;
  timeout_word = omega arith;
  keepalive_word = omega arith;
  v6_length = refl;
  unit_name = two_letters-IsPaddable 128 0 (omega arith) (omega arith);
  user_name = two_letters-IsPaddable 12 32 (omega arith) (omega arith);
  v4_length = refl;
  program_name = two_letters-IsPaddable 64 0 (omega arith) (omega arith);
}

decode-encode_initialize_parameters_example :
    (bs : List ℕ) × (encode_initialize_parameters some_parameters ≡ ok bs)
    × (length bs ≡ 373)
    × (decode_initialize_parameters bs ≡ ok some_parameters)
decode-encode_initialize_parameters_example =
    decode-encode_initialize_parameters some_parameters
      (two_letters-IsPaddable 32 32 (omega arith) (omega arith)) some_options-IsOptions

abbrev partner_parameters : PartnerLogicalUnitParameters
partner_parameters = record {
  long_logical_unit_name = 65 ∷ 66 ∷ [];
  partner_host_address = replicate 16 1;
}

decode-encode_partner_logical_unit_parameters_example :
    (bs : List ℕ) × (encode_partner_logical_unit_parameters partner_parameters ≡ ok bs)
    × (length bs ≡ 144)
    × (decode_partner_logical_unit_parameters bs ≡ ok partner_parameters)
decode-encode_partner_logical_unit_parameters_example =
    decode-encode_partner_logical_unit_parameters partner_parameters
      (two_letters-IsPaddable 128 32 (omega arith) (omega arith)) refl

encode_control_record-initialize_example :
    (parameters bs : List ℕ) × (encode_initialize_parameters some_parameters ≡ ok parameters)
    × (encode_control_record (control_input no_input 1 some_info parameters) ≡ ok bs)
    × (decode_header bs ≡ ok (header_for 1 no_input 373))
    × (decode_extended_info (take 32 (drop 48 bs)) ≡ ok some_info)
    × (decode_initialize_parameters (drop 80 bs) ≡ ok some_parameters)
encode_control_record-initialize_example =
    encode_control_record-initialize no_input some_info some_parameters
      (no_input-IsInput 1 (omega arith)) some_info-IsExtendedInfo
      (two_letters-IsPaddable 32 32 (omega arith) (omega arith)) some_options-IsOptions

trailing_name : numbered "trailingData" 120 ≡ "trailingData[120]"
unfolding numbered decimal_loop
trailing_name = refl

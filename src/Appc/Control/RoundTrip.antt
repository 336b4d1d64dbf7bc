-- ===== src/Appc/Control/RoundTrip.antt =====
-- records.go: what the peer reads from a control record.
use open_rfc_go.Base.{
  ℕ, ◌≤◌, ◌≡◌, refl, ap, ◌∙◌, true, false, some, none, List, [], ◌∷◌, append-nil, length, take,
  drop, ltb, ◌==◌, arith, ok,
}
use open_rfc_go.Appc.{func_initialize, func_set_partner_lu_name}
use open_rfc_go.Appc.Control.{
  ControlRecordInput, is_control_function, control_info, encode_control_record,
}
use open_rfc_go.Appc.Header.{Header, decode_header}
use open_rfc_go.Appc.Info.{ExtendedInfo, decode_extended_info}
use open_rfc_go.Appc.Info.RoundTrip.{IsExtendedInfo, decode-encode_extended_info}
use open_rfc_go.Appc.Parameters.{
  InitializeParameters, encode_initialize_parameters, decode_initialize_parameters,
}
use open_rfc_go.Appc.Parameters.Fields.{IsPaddable}
use open_rfc_go.Appc.Parameters.Options.{IsOptions}
use open_rfc_go.Appc.Parameters.RoundTrip.{decode-encode_initialize_parameters}
use open_rfc_go.Appc.Records.{RecordHeaderInput}
use open_rfc_go.Appc.Records.RoundTrip.{IsInput, header_for, encode_record-Holds}

-- A control record with extended information.
abbrev pub control_input : RecordHeaderInput → ℕ → ExtendedInfo → List ℕ → ControlRecordInput
control_input header f info parameters = record {
  header = header;
  function_code = f;
  extended_info = some info;
  partner_logical_unit_info = none;
  parameters = parameters;
}

-- The header, operation information and parameters that a peer finds in a record.
pub record IsControl (bs : List ℕ) (h : Header) (info : ExtendedInfo) (parameters : List ℕ)
    : Type 0 where
  pub decoded : decode_header bs ≡ ok h
  pub info_part : decode_extended_info (take 32 (drop 48 bs)) ≡ ok info
  pub parameter_part : drop 80 bs ≡ parameters

encode_control_record-IsControl :
    (header : RecordHeaderInput) (f : ℕ) (info : ExtendedInfo) (parameters : List ℕ)
    → IsInput f header
    → IsExtendedInfo info
    → is_control_function f ≡ true
    → (f == func_set_partner_lu_name) ≡ false
    → length parameters ≤ 65535
    → (bs : List ℕ) × (encode_control_record (control_input header f info parameters) ≡ ok bs)
      × IsControl bs (header_for f header (length parameters)) info parameters
unfolding encode_control_record control_info
encode_control_record-IsControl header f info parameters v i control other short =
    let (operation, encoded, width, read) = decode-encode_extended_info info i in
    let fits : ltb 65535 (length parameters) ≡ false = ground arith in
    let (bs, made, held) =
      encode_record-Holds f header operation (length parameters) (parameters ∷ [])
        "APPC control record" v width (omega (arith, short)) in
    (
      bs,
      rw (control, fits, other, encoded) made,
      record {
        decoded = held.decoded;
        info_part = ap decode_extended_info held.operation_part ∙ read;
        parameter_part = held.content_part ∙ append-nil parameters;
      },
    )

-- an F_INITIALIZE record is made without error from parameters, extended information and a header in
-- range, and its receiver decodes from it the header, the information and the parameters.
pub encode_control_record-initialize :
    (header : RecordHeaderInput) (info : ExtendedInfo) (p : InitializeParameters)
    → IsInput func_initialize header
    → IsExtendedInfo info
    → IsPaddable p.client_identifier 32 32
    → IsOptions p.options
    → (parameters bs : List ℕ) × (encode_initialize_parameters p ≡ ok parameters)
      × (encode_control_record (control_input header func_initialize info parameters) ≡ ok bs)
      × (decode_header bs ≡ ok (header_for func_initialize header 373))
      × (decode_extended_info (take 32 (drop 48 bs)) ≡ ok info)
      × (decode_initialize_parameters (drop 80 bs) ≡ ok p)
encode_control_record-initialize header info p v i c o =
    let (parameters, encoded, sized, back) = decode-encode_initialize_parameters p c o in
    let (bs, made, parts) =
      encode_control_record-IsControl header func_initialize info parameters v i refl refl
        (omega (arith, sized)) in
    (
      parameters,
      bs,
      encoded,
      made,
      parts.decoded ∙ ap (λ n. ok (header_for func_initialize header n)) sized,
      parts.info_part,
      ap decode_initialize_parameters parts.parameter_part ∙ back,
    )

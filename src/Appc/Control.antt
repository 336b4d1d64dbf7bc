-- ===== src/Appc/Control.antt =====
-- records.go: setup and control records, and data records.
use open_rfc_go.Base.{
  ℕ, pos, Bool, true, ◌||◌, not, Option, none, some, List, [], ◌∷◌, length, ltb, ◌==◌,
  if◌then◌else◌, Result, err, guard, ◌>>=◌, ◌>>◌,
}
use open_rfc_go.Appc.{
  Error, range, protocol, func_initialize, func_allocate, func_deallocate, func_set_tp_name,
  func_set_partner_lu_name, func_flush, func_sap_send,
}
use open_rfc_go.Appc.Info.{
  ExtendedInfo, default_extended_info, encode_extended_info, PartnerLogicalUnitInfoInput,
  encode_partner_logical_unit_info,
}
use open_rfc_go.Appc.Records.{RecordHeaderInput, or_default, encode_record}
pub mod RoundTrip

abbrev pub is_control_function : ℕ → Bool
is_control_function f =
    f == func_initialize
    || f == func_allocate
    || f == func_deallocate
    || f == func_set_tp_name
    || f == func_set_partner_lu_name
    || f == func_flush

-- A nil pointer is `none`.
pub record ControlRecordInput : Type 0 where
  pub header : RecordHeaderInput
  pub function_code : ℕ
  pub extended_info : Option ExtendedInfo
  pub partner_logical_unit_info : Option PartnerLogicalUnitInfoInput
  pub parameters : List ℕ

-- The three tests of the variant, and its encoding.
unfoldable pub control_info :
    ℕ → Option ExtendedInfo → Option PartnerLogicalUnitInfoInput → Result Error (List ℕ)
control_info f (some info) (some partner) = err protocol
control_info f none (some partner) =
    guard (f == func_set_partner_lu_name) protocol >> encode_partner_logical_unit_info partner
control_info f info none =
    guard (not (f == func_set_partner_lu_name)) protocol
    >> encode_extended_info (or_default info default_extended_info)

unfoldable pub encode_control_record : ControlRecordInput → Result Error (List ℕ)
encode_control_record input = do
  guard (is_control_function input.function_code) protocol
  guard (not (ltb 65535 (length input.parameters))) range
  operation ← control_info input.function_code input.extended_info input.partner_logical_unit_info
  encode_record input.function_code input.header operation (pos (length input.parameters))
      (input.parameters ∷ []) "APPC control record"

pub record DataRecordInput : Type 0 where
  pub header : RecordHeaderInput
  pub function_code : Option ℕ
  pub content : List ℕ
  pub communication_index : ℕ
  pub connection_index : ℕ
  pub is_final : Option Bool

-- The indices alone.
abbrev pub indices_info : ℕ → ℕ → ExtendedInfo
indices_info communication connection = record default_extended_info {
  communication_index = communication;
  connection_index = connection;
}

abbrev pub default_info : Bool → ℕ
default_info final = if final then 5 else 1

abbrev pub default_vector : Bool → ℕ → ℕ
default_vector final f = if final then 12 else if f == func_sap_send then 8 else 0

-- The header with the defaults of a data record.
abbrev pub data_header : RecordHeaderInput → Bool → ℕ → RecordHeaderInput
data_header header final f = record header {
  info = some (or_default header.info (default_info final));
  vector = some (or_default header.vector (default_vector final f));
}

unfoldable pub encode_data_record : DataRecordInput → Result Error (List ℕ)
encode_data_record input = do
  operation ← encode_extended_info (indices_info input.communication_index input.connection_index)
  let final = or_default input.is_final true
  let f : ℕ = or_default input.function_code func_sap_send
  encode_record f (data_header input.header final f) operation (pos (if final then 8 else 0))
      (input.content ∷ []) "APPC data record"

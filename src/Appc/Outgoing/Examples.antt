-- ===== src/Appc/Outgoing/Examples.antt =====
-- Runs of the planner of fragmentation.go, and its theorems at concrete messages.
use open_rfc_go.Base.{
  ℕ, pos, ◌≤◌, ◌≡◌, refl, true, All, some, none, List, [], ◌∷◌, concat, length, replicate, arith,
  ok,
}
use open_rfc_go.Appc.{validate_final_sap_parameters}
use open_rfc_go.Appc.Ascii.{all_printable, encode_fixed_ascii, exact_bytes}
use open_rfc_go.Appc.Info.{encode_extended_info}
use open_rfc_go.Wire.{context_or_default}
use open_rfc_go.Wire.Record.{write}
use open_rfc_go.Wire.Record.Puts.{compose_puts, put_all, put_one}
use open_rfc_go.Wire.Writer
use open_rfc_go.Appc.Records.{conversation_of, sap_length, encode_record}
use open_rfc_go.Appc.Records.Examples.{no_input, no_input-IsInput}
use open_rfc_go.Appc.Outgoing.{
  OutgoingDataPlanInput, OutgoingDataPlannerOptions, OutgoingDataFragment, streaming_disabled,
  checked_length, checked_fragments, single_record, planned_count, preflight,
  outgoing_operation_info, plan_outgoing_data_fragments, fragment_at, plan_loop,
}
use open_rfc_go.Appc.Outgoing.Slices.{slices, plan-covers}
use open_rfc_go.Appc.Outgoing.Encoded.{Encodes}
use open_rfc_go.Appc.Outgoing.Steps.{IsPlanInput, plan-Encodes}

-- Three bytes and their SAP parameters.
abbrev small_input : OutgoingDataPlanInput
small_input = record {
  header = no_input;
  application_data = 1 ∷ 2 ∷ 3 ∷ [];
  final_sap_parameters = some (0 ∷ 0 ∷ 0 ∷ 3 ∷ 0 ∷ 0 ∷ 0 ∷ 0 ∷ []);
  communication_index = 1;
  connection_index = 2;
}

abbrev no_options : OutgoingDataPlannerOptions
no_options = record {
  max_application_data_length = none;
  max_fragments = none;
  cpic_streaming = streaming_disabled;
}

abbrev small_plan : List OutgoingDataFragment
small_plan = fragment_at small_input (replicate 8 0) true 1 0 ∷ []

small_planned : plan_outgoing_data_fragments small_input no_options ≡ ok small_plan
unfolding plan_outgoing_data_fragments checked_length checked_fragments single_record
    validate_final_sap_parameters planned_count preflight plan_loop outgoing_operation_info
    encode_extended_info encode_fixed_ascii all_printable encode_record conversation_of exact_bytes
    sap_length compose_puts put_all put_one write Writer.new_writer Writer.write_bytes
    Writer.write_uint8 Writer.write_uint16_be Writer.write_uint32_be Writer.write_int32_be
    Writer.put Writer.ensure Writer.remaining Writer.finish context_or_default
small_planned = refl

small_input-IsPlanInput : IsPlanInput small_input
small_input-IsPlanInput = record {
  header_fields = no_input-IsInput 0 (omega arith);
  communication_word = omega arith;
  connection_word = omega arith;
}

plan-covers_example :
    (concat (slices small_plan) ≡ 1 ∷ 2 ∷ 3 ∷ [])
    × All (λ f. length f.application_data ≤ 28000) small_plan
    × ((m : ℕ) × (checked_fragments (pos 65536) ≡ ok m) × (1 ≤ m))
plan-covers_example = plan-covers small_input no_options small_plan small_planned

plan-Encodes_example : All Encodes small_plan
plan-Encodes_example =
    plan-Encodes small_input no_options small_plan small_input-IsPlanInput small_planned

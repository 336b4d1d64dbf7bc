-- ===== src/Appc/Outgoing.antt =====
-- fragmentation.go: the plan of an outgoing message, and the encoding of its steps.
use open_rfc_go.Base.{
  ℕ, zero, suc, ℤ, pos, negsuc, ◌+◌, ◌-◌, ◌*◌, ◌/◌, min, Bool, true, false, ◌||◌, ◌&&◌, not, Option,
  none, some, List, [], ◌∷◌, length, take, drop, replicate, ltb, leb, ◌==◌, if◌then◌else◌, Result,
  ok, err, guard, ◌>>=◌, ◌>>◌,
}
use open_rfc_go.Appc.{
  Error, range, state, wrong_length, func_async_send_data, func_send_data, func_receive,
  func_sap_send, encode_async_data_info, validate_final_sap_parameters, FragmentSemantics,
  outgoing_fragment_semantics, max_application_data_fragment_length, final_sap_parameter_length,
  max_outgoing_message_length, default_max_outgoing_message_length, default_max_message_fragments,
}
use open_rfc_go.Appc.Control.{indices_info}
use open_rfc_go.Appc.Info.{encode_extended_info}
use open_rfc_go.Appc.Records.{RecordHeaderInput, or_default, encode_record}
pub mod Slices
pub mod Encoded
pub mod Steps
pub mod Examples

unfoldable pub outgoing_operation_info : ℕ → ℕ → ℕ → ℕ → Result Error (List ℕ)
outgoing_operation_info f data_length communication connection =
    if f == func_async_send_data || f == func_send_data
    then encode_async_data_info (pos data_length) communication connection
    else encode_extended_info (indices_info communication connection)

-- A nil slice is `none`.
pub record OutgoingDataPlanInput : Type 0 where
  pub header : RecordHeaderInput
  pub application_data : List ℕ
  pub final_sap_parameters : Option (List ℕ)
  pub communication_index : ℕ
  pub connection_index : ℕ

-- The empty policy is the disabled one.
pub data CpicStreamingPolicy : Type 0 where
  streaming_disabled streaming_enabled unknown_policy : CpicStreamingPolicy

pub record OutgoingDataPlannerOptions : Type 0 where
  pub max_application_data_length : Option ℤ
  pub max_fragments : Option ℤ
  pub cpic_streaming : CpicStreamingPolicy

pub record OutgoingDataFragment : Type 0 where
  pub header : RecordHeaderInput
  pub function_code : ℕ
  pub fragment_index : ℤ
  pub fragment_count : ℤ
  pub conversation_id : List ℕ
  pub sequence_number : ℕ
  pub application_data : List ℕ
  pub final_sap_parameters : List ℕ
  pub message_application_data_length : ℤ
  pub communication_index : ℕ
  pub connection_index : ℕ
  pub is_final : Bool
  pub info : ℕ
  pub vector : ℕ
  pub sap_parameter_length : ℤ

unfoldable pub header_input : OutgoingDataFragment → RecordHeaderInput
header_input f = record f.header {
  conversation_id = some f.conversation_id;
  sequence_number = some f.sequence_number;
  info = some f.info;
  vector = some f.vector;
}

-- Bounds on the options.
unfoldable pub checked_length : ℤ → Result Error ℕ
checked_length (negsuc n) = err range
checked_length (pos n) = if ltb max_outgoing_message_length n then err range else ok n

unfoldable pub checked_fragments : ℤ → Result Error ℕ
checked_fragments (negsuc n) = err range
checked_fragments (pos n) = if n == 0 then err range else ok n

abbrev pub is_known : CpicStreamingPolicy → Bool
is_known unknown_policy = false
is_known _ = true

abbrev pub is_enabled : CpicStreamingPolicy → Bool
is_enabled streaming_enabled = true
is_enabled _ = false

-- Whether the message goes out in one record, which its SAP parameters decide.
unfoldable pub single_record : Option (List ℕ) → ℕ → Result Error Bool
single_record (some parameters) n = do
  guard (length parameters == final_sap_parameter_length) (wrong_length (length parameters))
  validate_final_sap_parameters parameters n
  guard (leb n max_application_data_fragment_length) range
  ok true
single_record none n = do guard (not (leb n max_application_data_fragment_length)) range; ok false

unfoldable pub planned_count : Bool → ℕ → ℕ
planned_count single n =
    if single
    then 1
    else (n + max_application_data_fragment_length - 1) / max_application_data_fragment_length + 1

-- The record that is encoded only to see its bounds checked.
unfoldable pub preflight : Bool → OutgoingDataPlanInput → Result Error (List ℕ)
preflight single input = do
  let n : ℕ = length input.application_data
  let f : ℕ = if single then func_sap_send else func_async_send_data
  let data_length : ℕ =
      if single
      then n + length (or_default input.final_sap_parameters [])
      else min n max_application_data_fragment_length
  let sap : ℕ = if single then final_sap_parameter_length else 0
  operation ← outgoing_operation_info f data_length input.communication_index input.connection_index
  encode_record f input.header operation (pos sap) ([] ∷ []) "outgoing APPC plan"

-- The slice from `start`, which the terminator has empty.
abbrev pub slice_of : List ℕ → ℕ → Bool → List ℕ
slice_of content start is_terminator =
    if is_terminator
    then []
    else take (min (start + max_application_data_fragment_length) (length content) - start)
        (drop start content)

abbrev pub fragment_at : OutgoingDataPlanInput → List ℕ → Bool → ℕ → ℕ → OutgoingDataFragment
fragment_at input conversation single count index =
    let sem = outgoing_fragment_semantics index count in
    let n : ℕ = length input.application_data in
    record {
      header = input.header;
      function_code = sem.function_code;
      fragment_index = pos index;
      fragment_count = pos count;
      conversation_id = conversation;
      sequence_number = or_default input.header.sequence_number 0;
      application_data =
          slice_of input.application_data (min (index * max_application_data_fragment_length) n)
            (sem.function_code == func_receive);
      final_sap_parameters = if single then or_default input.final_sap_parameters [] else [];
      message_application_data_length = pos n;
      communication_index = input.communication_index;
      connection_index = input.connection_index;
      is_final = sem.is_final;
      info = sem.info;
      vector = sem.vector;
      sap_parameter_length = pos sem.sap_parameter_length;
    }

-- The loop, with `left` rounds to go.
unfoldable pub plan_loop :
    ℕ → OutgoingDataPlanInput → List ℕ → Bool → ℕ → ℕ → List OutgoingDataFragment
plan_loop zero input conversation single count index = []
plan_loop (suc left) input conversation single count index =
    fragment_at input conversation single count index
    ∷ plan_loop left input conversation single count (index + 1)

unfoldable pub plan_outgoing_data_fragments :
    OutgoingDataPlanInput → OutgoingDataPlannerOptions → Result Error (List OutgoingDataFragment)
plan_outgoing_data_fragments input options = do
  max_length ←
      checked_length
        (or_default options.max_application_data_length (pos default_max_outgoing_message_length))
  max_fragments ←
      checked_fragments (or_default options.max_fragments (pos default_max_message_fragments))
  guard (is_known options.cpic_streaming) range
  let n : ℕ = length input.application_data
  guard (leb n max_length) range
  single ← single_record input.final_sap_parameters n
  guard (single || is_enabled options.cpic_streaming) state
  let count = planned_count single n
  guard (leb count max_fragments) range
  let conversation : List ℕ = or_default input.header.conversation_id (replicate 8 0)
  guard (length conversation == 8) (wrong_length (length conversation))
  preflight single input >>= λ _. ok (plan_loop count input conversation single count 0)

-- The copies are the fragment itself, of which only the bounds are checked.
unfoldable pub snapshot_outgoing_data_fragment :
    OutgoingDataFragment → Result Error OutgoingDataFragment
snapshot_outgoing_data_fragment f = do
  guard (length f.conversation_id == 8) range
  guard (leb (length f.application_data) max_application_data_fragment_length) range
  guard (leb (length f.final_sap_parameters) final_sap_parameter_length) range
  ok f

abbrev pub same_flag : Bool → Bool → Bool
same_flag true b = b
same_flag false b = not b

-- A negative number is refused wherever it stands.
unfoldable pub natural : ℤ → Result Error ℕ
natural (pos n) = ok n
natural (negsuc n) = err range

-- The fields that the place of the fragment gives it.
unfoldable pub is_expected : OutgoingDataFragment → ℕ → FragmentSemantics → Bool
is_expected f sap sem =
    f.function_code == sem.function_code
    && same_flag f.is_final sem.is_final
    && f.info == sem.info
    && f.vector == sem.vector
    && sap == sem.sap_parameter_length

-- `invalidOutgoingFragment(err.Error())`
abbrev pub as_range : Result Error (Unit {0}) → Result Error (Unit {0})
as_range (ok u) = ok u
as_range (err e) = err range

unfoldable pub check_slice : OutgoingDataFragment → ℕ → ℕ → Result Error (Unit {0})
check_slice f count n =
    if count == 1
    then guard (leb (length f.application_data) max_application_data_fragment_length) range
      >> as_range (validate_final_sap_parameters f.final_sap_parameters n)
    else if f.function_code == func_async_send_data || f.function_code == func_send_data
    then guard
        (leb 1 (length f.application_data)
          && leb (length f.application_data) max_application_data_fragment_length)
        range
      >> guard (length f.final_sap_parameters == 0) range
    else guard (length f.application_data == 0 && length f.final_sap_parameters == 0) range

unfoldable pub fragment_info : OutgoingDataFragment → ℕ → Result Error (List ℕ)
fragment_info f count =
    if f.function_code == func_receive && ltb 1 count
    then encode_async_data_info (pos max_application_data_fragment_length) f.communication_index
        f.connection_index
    else outgoing_operation_info f.function_code (length f.application_data) f.communication_index
        f.connection_index

unfoldable pub encode_outgoing_data_fragment : OutgoingDataFragment → Result Error (List ℕ)
encode_outgoing_data_fragment input = do
  f ← snapshot_outgoing_data_fragment input
  count ← natural f.fragment_count
  guard (leb 1 count) range
  index ← natural f.fragment_index
  guard (ltb index count) range
  n ← natural f.message_application_data_length
  guard (leb n max_outgoing_message_length) range
  sap ← natural f.sap_parameter_length
  guard (is_expected f sap (outgoing_fragment_semantics index count)) range
  check_slice f count n
  operation ← fragment_info f count
  encode_record f.function_code (header_input f) operation (pos sap)
      (f.application_data ∷ f.final_sap_parameters ∷ []) "outgoing APPC data fragment"

-- ===== src/Appc/Conversation.antt =====
-- conversation.go: data records and acknowledgements.
pub mod Decoder
pub mod Limits
pub mod Calls
pub mod Parts
pub mod Reassembly
pub mod Delivery
pub mod Examples
use open_rfc_go.Base.{
  ℕ, ℤ, pos, negsuc, ◌+◌, ◌-◌, ◌/◌, ◌%◌, Bool, true, false, not, ◌&&◌, ◌||◌, Option, none, some,
  List, [], ◌∷◌, ◌++◌, length, take, drop, ltb, leb, ◌==◌, if◌then◌else◌, Result, ok, err, guard,
  ◌>>=◌, ◌>>◌,
}
use open_rfc_go.Base.Stateful.{Method}
use open_rfc_go.Appc.{
  Error, range, protocol, no_message, wrong_length, wrong_data_length, truncated_message,
  after_return_code, over_message_length, over_fragment_count, record_header_length,
  default_max_message_length, default_max_message_fragments, return_code_deallocated_normal,
  func_receive, func_sap_send, func_send_data, DataOperationInfo,
  decode_incoming_data_operation_info, all_zero,
}
use open_rfc_go.Appc.Header.{Header, decode_header}

pub record DataFragment : Type 0 where
  pub header : Header
  pub content : List ℕ
  pub is_final : Bool

-- `vector & 4 != 0`
abbrev pub has_end_of_message : ℕ → Bool
has_end_of_message vector = vector / 4 % 2 == 1

abbrev pub is_data : Header → Bool
is_data h =
    h.payload_info.function_code == func_sap_send || h.payload_info.function_code == func_receive

unfoldable pub decode_data_fragment : List ℕ → Result Error DataFragment
decode_data_fragment payload = do
  guard (leb record_header_length (length payload)) (wrong_length (length payload))
  h ← decode_header payload
  guard (is_data h) protocol
  ok (record {
    header = h;
    content = drop record_header_length payload;
    is_final = has_end_of_message h.vector;
  })

abbrev pub is_zero : ℤ → Bool
is_zero (pos n) = n == 0
is_zero (negsuc n) = false

-- The canonical header of an acknowledgement.
abbrev pub is_acknowledgement : Header → Bool
is_acknowledgement h =
    h.payload_info.function_code == func_send_data
    && h.protocol == 2
    && h.mode == 0
    && h.uid == 65535
    && h.gateway_id == 0
    && h.error_length == 0
    && h.info2 == 0
    && h.trace_level == 0
    && h.time == 0
    && h.info3 == 0
    && is_zero h.timeout
    && h.info4 == 2
    && h.sequence_number == 0
    && h.info == 1
    && h.vector == 0
    && h.sap_parameter_len == 0
    && h.padding == 0
    && h.appc_return_code == 0
    && h.sap_return_code == 0

pub record SynchronousSendAcknowledgement : Type 0 where
  pub header : Header
  pub connection_index : ℕ

unfoldable pub decode_synchronous_send_acknowledgement :
    List ℕ → Result Error SynchronousSendAcknowledgement
decode_synchronous_send_acknowledgement payload = do
  guard (length payload == record_header_length) (wrong_length (length payload))
  h ← decode_header payload
  guard (is_acknowledgement h) protocol
  info ← decode_incoming_data_operation_info (drop 48 payload)
  guard (all_zero (take 30 (drop 48 payload))) protocol
  guard (info.data_length == 0 && info.communication_index == 0) protocol
  ok (record { header = h; connection_index = info.connection_index })

-- ===== src/Appc.antt =====
-- internal/appc: the operation information of data records and the meaning of fragments.
pub mod DataInfo
pub mod RoundTrip
pub mod Fragments
pub mod Header
pub mod Ascii
pub mod Records
pub mod Info
pub mod Parameters
pub mod Control
pub mod Outgoing
pub mod Setup
pub mod Conversation
pub mod Examples
use open_rfc_go.Base.{
  ℕ, ℤ, pos, negsuc, ◌-◌, ◌*◌, ◌%◌, Bool, true, false, not, ◌&&◌, ◌||◌, List, [], ◌∷◌, length, drop,
  replicate, leb, ltb, ◌==◌, if◌then◌else◌, Result, ok, err,
}
use open_rfc_go.Base.Bytes.{uint16_be}
use open_rfc_go.Base.Stateful.{Method, pure, ◌>>=◌, ◌>>◌}
use open_rfc_go.Wire
use open_rfc_go.Wire.Reader
use open_rfc_go.Wire.Reader.{Reader}
use open_rfc_go.Wire.Writer
use open_rfc_go.Wire.Writer.{Writer}

-- The sentinels, some with the numbers that their messages name, PeerReturnCodeError, and an error of
-- the record reader or writer. `no_message` is ErrNormalDeallocationWithoutData.
pub data Error : Type 0 where
  range protocol state no_message : Error
  wrong_length unsupported_version : ℕ → Error
  wrong_packet_length over_message_length over_fragment_count : ℕ → ℕ → Error
  wrong_data_length truncated_message : ℕ → ℕ → Error
  peer_return_code after_return_code : ℕ → ℕ → ℕ → Error
  unsupported_protocol : List ℕ → Error
  in_record : Wire.Error → Error

abbrev pub final_sap_parameter_length : ℕ
final_sap_parameter_length = 8

abbrev pub max_application_data_fragment_length : ℕ
max_application_data_fragment_length = 28000

abbrev pub max_async_sends_before_sync : ℕ
max_async_sends_before_sync = 21

abbrev pub common_header_length : ℕ
common_header_length = 48

abbrev pub record_header_length : ℕ
record_header_length = 80

abbrev pub max_outgoing_message_length : ℕ
max_outgoing_message_length = 2147483647

abbrev pub default_max_outgoing_message_length : ℕ
default_max_outgoing_message_length = 1400000

abbrev pub default_max_message_length : ℕ
default_max_message_length = 256 * 1024 * 1024

abbrev pub default_max_message_fragments : ℕ
default_max_message_fragments = 65536

abbrev pub return_code_deallocated_normal : ℕ
return_code_deallocated_normal = 18

abbrev pub func_initialize : ℕ
func_initialize = 1

abbrev pub func_allocate : ℕ
func_allocate = 5

abbrev pub func_deallocate : ℕ
func_deallocate = 11

abbrev pub func_set_tp_name : ℕ
func_set_tp_name = 13

abbrev pub func_set_partner_lu_name : ℕ
func_set_partner_lu_name = 15

abbrev pub func_flush : ℕ
func_flush = 27

abbrev pub func_send_data : ℕ
func_send_data = 7

abbrev pub func_async_send_data : ℕ
func_async_send_data = 8

abbrev pub func_receive : ℕ
func_receive = 9

abbrev pub func_sap_send : ℕ
func_sap_send = 203

pub record DataOperationInfo : Type 0 where
  pub data_length : ℕ
  pub communication_index : ℕ
  pub connection_index : ℕ

abbrev pub lifted : {S A : Type 0} → Result Wire.Error A × S → Result Error A × S
lifted (ok a, s) = (ok a, s)
lifted (err e, s) = (err (in_record e), s)

-- An error of the record is returned as it is.
abbrev pub lift : {S A : Type 0} → Method S Wire.Error A → Method S Error A
lift m s = lifted (m s)

-- `if !test { return e }`
abbrev pub require : {S : Type 0} → Bool → Error → Method S Error (Unit {0})
require true e s = (ok tt, s)
require false e s = (err e, s)

-- The calls of `put`, of which the first that fails ends the sequence.
unfoldable pub write_data_info : ℕ → ℕ → ℕ → Method Writer Wire.Error (Unit {0})
write_data_info data_length communication_index connection_index = do
  Writer.write_uint16_be 0 "reserved"
  Writer.write_uint16_be data_length "dataLength"
  Writer.write_bytes (replicate 24 0) "reserved2"
  Writer.write_uint16_be communication_index "communicationIndex"
  Writer.write_uint16_be connection_index "connectionIndex"

abbrev pub in_wire : {A : Type 0} → Result Wire.Error A → Result Error A
in_wire (ok a) = ok a
in_wire (err e) = err (in_record e)

abbrev pub finish_info : Result Wire.Error (Unit {0}) × Writer → Result Error (List ℕ)
finish_info (ok _, w) = in_wire (Writer.finish w)
finish_info (err e, w) = err (in_record e)

unfoldable pub encode_async_data_info : ℤ → ℕ → ℕ → Result Error (List ℕ)
encode_async_data_info (negsuc n) communication_index connection_index = err range
encode_async_data_info (pos n) communication_index connection_index =
    if ltb n 1 || ltb max_application_data_fragment_length n
    then err range
    else elim (Writer.new_writer (pos 32) "APPC async-send info") [
      | err e ↦ err (in_record e)
      | ok w ↦ finish_info (write_data_info n communication_index connection_index w)
    ]

-- `for _, b := range reserved2`
unfoldable pub all_zero : List ℕ → Bool
all_zero [] = true
all_zero (b ∷ bs) = b == 0 && all_zero bs

abbrev pub finish_reader : Method Reader Error (Unit {0})
finish_reader r = (in_wire (Reader.finish r), r)

unfoldable pub read_data_info : Method Reader Error DataOperationInfo
read_data_info = do
  reserved ← lift (Reader.read_uint16_be "reserved")
  require (reserved == 0) range
  n ← lift (Reader.read_uint16_be "dataLength")
  reserved2 ← lift (Reader.read_bytes (pos 24) "reserved2")
  require (all_zero reserved2) range
  communication ← lift (Reader.read_uint16_be "communicationIndex")
  connection ← lift (Reader.read_uint16_be "connectionIndex")
  finish_reader
  pure (record {
    data_length = n;
    communication_index = communication;
    connection_index = connection;
  })

unfoldable pub decode_data_operation_info : List ℕ → Result Error DataOperationInfo
decode_data_operation_info bytes =
    if length bytes == 32
    then (read_data_info (Reader.new_reader bytes "APPC data operation info")).0
    else err (wrong_length (length bytes))

unfoldable pub decode_incoming_data_operation_info : List ℕ → Result Error DataOperationInfo
decode_incoming_data_operation_info bytes =
    if length bytes == 32
    then ok (record {
      data_length = uint16_be (drop 10 bytes);
      communication_index = uint16_be (drop 28 bytes);
      connection_index = uint16_be (drop 30 bytes);
    })
    else err (wrong_length (length bytes))

unfoldable pub decode_async_data_info : List ℕ → Result Error DataOperationInfo
decode_async_data_info bytes = elim (decode_data_operation_info bytes) [
  | err e ↦ err e
  | ok decoded ↦
      if ltb decoded.data_length 1 || ltb max_application_data_fragment_length decoded.data_length
      then err range
      else ok decoded
]

unfoldable pub validate_final_sap_parameters : List ℕ → ℕ → Result Error (Unit {0})
validate_final_sap_parameters parameters application_data_length =
    if not (length parameters == final_sap_parameter_length)
    then err (wrong_length (length parameters))
    else if not (uint16_be parameters == 0)
    then err range
    else if uint16_be (drop 2 parameters) == application_data_length
    then ok tt
    else err (wrong_packet_length (uint16_be (drop 2 parameters)) application_data_length)

pub record FragmentSemantics : Type 0 where
  pub function_code : ℕ
  pub is_final : Bool
  pub info : ℕ
  pub vector : ℕ
  pub sap_parameter_length : ℕ

-- A count of at least one.
unfoldable pub outgoing_fragment_semantics : ℕ → ℕ → FragmentSemantics
outgoing_fragment_semantics index count =
    let is_single : Bool = count == 1 in
    let is_final : Bool = is_single || index == count - 1 in
    let is_sync_streaming : Bool =
      not is_single
      && not is_final
      && leb max_async_sends_before_sync index
      && (index - max_async_sends_before_sync) % max_async_sends_before_sync == 0 in
    record {
      function_code =
          if is_single
          then func_sap_send
          else if is_final
          then func_receive
          else if is_sync_streaming
          then func_send_data
          else func_async_send_data;
      is_final = is_final;
      info = if is_single then 5 else if is_final || is_sync_streaming then 1 else 0;
      vector = if is_single then 12 else 0;
      sap_parameter_length = if is_single then 8 else 0;
    }

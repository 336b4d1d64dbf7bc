-- ===== src/Appc/Info.antt =====
-- records.go: the two forms of the 32 bytes of operation information in a control record.
use open_rfc_go.Base.{
  ℕ, pos, Bool, not, ◌||◌, ◌&&◌, List, [], ◌∷◌, ◌++◌, length, take, ltb, leb, ◌==◌, if◌then◌else◌,
  Result, ok, err, min,
}
use open_rfc_go.Base.Stateful.{Method, pure, ◌>>=◌, ◌>>◌}
use open_rfc_go.Appc.{Error, range, protocol, wrong_length, in_record, lift, require, finish_reader}
use open_rfc_go.Appc.Ascii.{all_printable, encode_fixed_ascii, decode_fixed_ascii}
use open_rfc_go.Appc.Header.{return_of}
use open_rfc_go.Wire.Reader
use open_rfc_go.Wire.Reader.{Reader}
use open_rfc_go.Wire.Record.{Field, uint8, uint16, uint32, bytes}
use open_rfc_go.Wire.Record.Puts.{Put, plain, encoded, compose_puts}
use Prim.Native.String.{String}
pub mod RoundTrip

pub record ExtendedInfo : Type 0 where
  pub short_destination_name : List ℕ
  pub logical_unit_name : List ℕ
  pub transaction_program_name : List ℕ
  pub connection_type : ℕ
  pub client_info : ℕ
  pub communication_index : ℕ
  pub connection_index : ℕ

abbrev pub default_extended_info : ExtendedInfo
default_extended_info = record {
  short_destination_name = [];
  logical_unit_name = [];
  transaction_program_name = [];
  connection_type = 0;
  client_info = 0;
  communication_index = 0;
  connection_index = 0;
}

abbrev pub extended_puts : ExtendedInfo → List (Put Error)
extended_puts info =
    encoded "shortDestinationName" (encode_fixed_ascii info.short_destination_name)
    ∷ encoded "logicalUnitName" (encode_fixed_ascii info.logical_unit_name)
    ∷ encoded "transactionProgramName" (encode_fixed_ascii info.transaction_program_name)
    ∷ plain "connectionType" (uint8 info.connection_type)
    ∷ plain "clientInfo" (uint8 info.client_info)
    ∷ plain "reserved" (uint16 0)
    ∷ plain "communicationIndex" (uint16 info.communication_index)
    ∷ plain "connectionIndex" (uint16 info.connection_index)
    ∷ []

unfoldable pub encode_extended_info : ExtendedInfo → Result Error (List ℕ)
encode_extended_info info =
    compose_puts in_record (pos 32) "APPC extended info" (extended_puts info)

-- takeAscii
unfoldable pub read_ascii : String → Method Reader Error (List ℕ)
read_ascii field = do
  encoded_name ← lift (Reader.read_bytes (pos 8) field)
  return_of (decode_fixed_ascii encoded_name)

unfoldable pub read_extended_info : Method Reader Error ExtendedInfo
read_extended_info = do
  destination ← read_ascii "shortDestinationName"
  unit ← read_ascii "logicalUnitName"
  program ← read_ascii "transactionProgramName"
  connection_type ← lift (Reader.read_uint8 "connectionType")
  client_info ← lift (Reader.read_uint8 "clientInfo")
  reserved ← lift (Reader.read_uint16_be "reserved")
  require (reserved == 0) protocol
  communication ← lift (Reader.read_uint16_be "communicationIndex")
  connection ← lift (Reader.read_uint16_be "connectionIndex")
  finish_reader
  pure (record {
    short_destination_name = destination;
    logical_unit_name = unit;
    transaction_program_name = program;
    connection_type = connection_type;
    client_info = client_info;
    communication_index = communication;
    connection_index = connection;
  })

unfoldable pub decode_extended_info : List ℕ → Result Error ExtendedInfo
decode_extended_info content =
    if length content == 32
    then (read_extended_info (Reader.new_reader content "APPC extended info")).0
    else err (wrong_length (length content))

pub record PartnerLogicalUnitInfoInput : Type 0 where
  pub logical_unit_name : List ℕ
  pub partner_host_address : List ℕ
  pub communication_index : ℕ
  pub connection_index : ℕ

pub record PartnerLogicalUnitInfo : Type 0 where
  pub logical_unit_name_prefix : List ℕ
  pub logical_unit_name_length : ℕ
  pub partner_host_address : List ℕ
  pub communication_index : ℕ
  pub connection_index : ℕ

abbrev pub partner_puts : PartnerLogicalUnitInfoInput → List ℕ → List (Put Error)
partner_puts info prefix =
    plain "logicalUnitNamePrefix" (bytes prefix)
    ∷ plain "logicalUnitNameLength" (uint32 (length info.logical_unit_name))
    ∷ plain "partnerHostAddress" (bytes info.partner_host_address)
    ∷ plain "communicationIndex" (uint16 info.communication_index)
    ∷ plain "connectionIndex" (uint16 info.connection_index)
    ∷ []

-- The prefix is at most 8 bytes of the name.
unfoldable pub encode_partner_logical_unit_info :
    PartnerLogicalUnitInfoInput → Result Error (List ℕ)
encode_partner_logical_unit_info info =
    if not (all_printable info.logical_unit_name) || ltb 128 (length info.logical_unit_name)
    then err range
    else elim (encode_fixed_ascii (take 8 info.logical_unit_name)) [
      | err e ↦ err e
      | ok prefix ↦
          if length info.partner_host_address == 16
          then compose_puts in_record (pos 32) "APPC partner logical-unit info"
              (partner_puts info prefix)
          else err (wrong_length (length info.partner_host_address))
    ]

unfoldable pub read_partner_logical_unit_info : Method Reader Error PartnerLogicalUnitInfo
read_partner_logical_unit_info = do
  encoded_name ← lift (Reader.read_bytes (pos 8) "logicalUnitNamePrefix")
  name_length ← lift (Reader.read_uint32_be "logicalUnitNameLength")
  require (leb name_length 128) protocol
  prefix ← return_of (decode_fixed_ascii encoded_name)
  require (length prefix == min name_length 8) protocol
  host ← lift (Reader.read_bytes (pos 16) "partnerHostAddress")
  communication ← lift (Reader.read_uint16_be "communicationIndex")
  connection ← lift (Reader.read_uint16_be "connectionIndex")
  finish_reader
  pure (record {
    logical_unit_name_prefix = prefix;
    logical_unit_name_length = name_length;
    partner_host_address = host;
    communication_index = communication;
    connection_index = connection;
  })

unfoldable pub decode_partner_logical_unit_info : List ℕ → Result Error PartnerLogicalUnitInfo
decode_partner_logical_unit_info content =
    if length content == 32
    then (read_partner_logical_unit_info
        (Reader.new_reader content "APPC partner logical-unit info")).0
    else err (wrong_length (length content))

-- ===== src/Appc/Parameters.antt =====
-- records.go: the parameters of F_INITIALIZE and of F_SET_PARTNER_LU_NAME.
use open_rfc_go.Base.{
  ℕ, ℤ, pos, Bool, List, [], ◌∷◌, length, replicate, ◌==◌, if◌then◌else◌, Result, ok, err,
}
use open_rfc_go.Base.Stateful.{Method, pure, ◌>>=◌, ◌>>◌}
use open_rfc_go.Appc.{
  Error, protocol, unsupported_version, unsupported_protocol, wrong_length, in_record, lift,
  require, finish_reader, all_zero,
}
use open_rfc_go.Appc.Ascii.{encode_padded_ascii, decode_padded_ascii, exact_bytes, fixed_hex_id}
use open_rfc_go.Appc.Conversation.Decoder.{bytes_equal}
use open_rfc_go.Appc.Header.{return_of}
use open_rfc_go.Wire.Reader
use open_rfc_go.Wire.Reader.{Reader}
use open_rfc_go.Wire.Record.{Field, uint8, uint16, uint32, int32, bytes}
use open_rfc_go.Wire.Record.Puts.{Put, plain, encoded, compose_puts}
use Prim.Native.String.{String}
pub mod Fields
pub mod Options
pub mod RoundTrip

pub record ExtendedInitializeOptions : Type 0 where
  pub option_flags : ℕ
  pub root_id : List ℕ
  pub connection_id : List ℕ
  pub connection_id_suffix : ℕ
  pub timeout : ℤ
  pub keepalive_timeout : ℤ
  pub export_trace : ℕ
  pub start_type : ℕ
  pub network_protocol : ℕ
  pub local_address_v6 : List ℕ
  pub long_logical_unit_name : List ℕ
  pub operating_system_user : List ℕ
  pub local_address_v4 : List ℕ
  pub long_transaction_program_name : List ℕ

-- "CPIC"
abbrev pub protocol_name : List ℕ
protocol_name = 67 ∷ 80 ∷ 73 ∷ 67 ∷ []

abbrev pub reserved : String → ℕ → Put Error
reserved field n = plain field (bytes (replicate n 0))

abbrev pub options_puts : ExtendedInitializeOptions → List (Put Error)
options_puts o =
    plain "version" (uint8 1)
    ∷ plain "optionFlags" (uint8 o.option_flags)
    ∷ encoded "protocolName" (encode_padded_ascii protocol_name 8 0)
    ∷ encoded "rootId" (fixed_hex_id o.root_id)
    ∷ encoded "connectionId" (fixed_hex_id o.connection_id)
    ∷ plain "connectionIdSuffix" (uint32 o.connection_id_suffix)
    ∷ plain "timeout" (int32 o.timeout)
    ∷ plain "keepaliveTimeout" (int32 o.keepalive_timeout)
    ∷ plain "exportTrace" (uint8 o.export_trace)
    ∷ plain "startType" (uint8 o.start_type)
    ∷ plain "networkProtocol" (uint8 o.network_protocol)
    ∷ encoded "localAddressV6" (exact_bytes o.local_address_v6 16)
    ∷ encoded "longLogicalUnitName" (encode_padded_ascii o.long_logical_unit_name 128 0)
    ∷ reserved "reserved1" 16
    ∷ encoded "operatingSystemUser" (encode_padded_ascii o.operating_system_user 12 32)
    ∷ reserved "reserved2" 8
    ∷ reserved "reserved3" 4
    ∷ reserved "reserved4" 12
    ∷ reserved "reserved5" 16
    ∷ encoded "localAddressV4" (exact_bytes o.local_address_v4 4)
    ∷ reserved "reserved6" 4
    ∷ encoded "longTransactionProgramName"
        (encode_padded_ascii o.long_transaction_program_name 64 0)
    ∷ []

unfoldable pub encode_extended_initialize_options :
    ExtendedInitializeOptions → Result Error (List ℕ)
encode_extended_initialize_options o =
    compose_puts in_record (pos 341) "APPC extended initialize options" (options_puts o)

unfoldable pub read_zero_reserved : String → ℕ → Method Reader Error (Unit {0})
read_zero_reserved field n = do
  content ← lift (Reader.read_bytes (pos n) field)
  require (all_zero content) protocol

-- ReadBytes, then decodePaddedAscii or fixedHexID.
unfoldable pub read_padded : String → ℕ → ℕ → Method Reader Error (List ℕ)
read_padded field n padding = do
  content ← lift (Reader.read_bytes (pos n) field)
  return_of (decode_padded_ascii content padding)

unfoldable pub read_hex_id : String → Method Reader Error (List ℕ)
read_hex_id field = do
  content ← lift (Reader.read_bytes (pos 16) field)
  return_of (fixed_hex_id content)

unfoldable pub read_extended_initialize_options : Method Reader Error ExtendedInitializeOptions
read_extended_initialize_options = do
  version ← lift (Reader.read_uint8 "version")
  require (version == 1) (unsupported_version version)
  flags ← lift (Reader.read_uint8 "optionFlags")
  name ← read_padded "protocolName" 8 0
  require (bytes_equal name protocol_name) (unsupported_protocol name)
  root ← read_hex_id "rootId"
  connection ← read_hex_id "connectionId"
  suffix ← lift (Reader.read_uint32_be "connectionIdSuffix")
  timeout ← lift (Reader.read_int32_be "timeout")
  keepalive ← lift (Reader.read_int32_be "keepaliveTimeout")
  trace ← lift (Reader.read_uint8 "exportTrace")
  start ← lift (Reader.read_uint8 "startType")
  network ← lift (Reader.read_uint8 "networkProtocol")
  address_v6 ← lift (Reader.read_bytes (ℤ.pos 16) "localAddressV6")
  unit ← read_padded "longLogicalUnitName" 128 0
  read_zero_reserved "reserved1" 16
  user ← read_padded "operatingSystemUser" 12 32
  read_zero_reserved "reserved2" 8
  read_zero_reserved "reserved3" 4
  read_zero_reserved "reserved4" 12
  read_zero_reserved "reserved5" 16
  address_v4 ← lift (Reader.read_bytes (ℤ.pos 4) "localAddressV4")
  read_zero_reserved "reserved6" 4
  program ← read_padded "longTransactionProgramName" 64 0
  finish_reader
  pure (record {
    option_flags = flags;
    root_id = root;
    connection_id = connection;
    connection_id_suffix = suffix;
    timeout = timeout;
    keepalive_timeout = keepalive;
    export_trace = trace;
    start_type = start;
    network_protocol = network;
    local_address_v6 = address_v6;
    long_logical_unit_name = unit;
    operating_system_user = user;
    local_address_v4 = address_v4;
    long_transaction_program_name = program;
  })

unfoldable pub decode_extended_initialize_options : List ℕ → Result Error ExtendedInitializeOptions
decode_extended_initialize_options content =
    if length content == 341
    then (read_extended_initialize_options
        (Reader.new_reader content "APPC extended initialize options")).0
    else err (wrong_length (length content))

pub record InitializeParameters : Type 0 where
  pub client_identifier : List ℕ
  pub options : ExtendedInitializeOptions

-- The encodings that come before the Writer is made.
abbrev pub both {ℓ} : {A B : Type ℓ} → Result Error A → Result Error B → Result Error (A × B)
both (err e) r = err e
both (ok a) (err e) = err e
both (ok a) (ok b) = ok (a, b)

unfoldable pub encode_initialize_parameters : InitializeParameters → Result Error (List ℕ)
encode_initialize_parameters p =
    elim (both (encode_padded_ascii p.client_identifier 32 32)
      (encode_extended_initialize_options p.options)) [
        | err e ↦ err e
        | ok (client_id, options) ↦ compose_puts in_record (pos 373) "APPC initialize parameters" (
            plain "clientIdentifier" (bytes client_id)
            ∷ plain "extendedOptions" (bytes options)
            ∷ [])
      ]

unfoldable pub read_initialize_parameters : Method Reader Error InitializeParameters
read_initialize_parameters = do
  client_id ← read_padded "clientIdentifier" 32 32
  content ← lift (Reader.read_bytes (pos 341) "extendedOptions")
  options ← return_of (decode_extended_initialize_options content)
  finish_reader
  pure (record { client_identifier = client_id; options = options })

unfoldable pub decode_initialize_parameters : List ℕ → Result Error InitializeParameters
decode_initialize_parameters content =
    if length content == 373
    then (read_initialize_parameters (Reader.new_reader content "APPC initialize parameters")).0
    else err (wrong_length (length content))

pub record PartnerLogicalUnitParameters : Type 0 where
  pub long_logical_unit_name : List ℕ
  pub partner_host_address : List ℕ

unfoldable pub encode_partner_logical_unit_parameters :
    PartnerLogicalUnitParameters → Result Error (List ℕ)
encode_partner_logical_unit_parameters p =
    elim (both (encode_padded_ascii p.long_logical_unit_name 128 32)
      (exact_bytes p.partner_host_address 16)) [
        | err e ↦ err e
        | ok (name, host) ↦
            compose_puts in_record (pos 144) "APPC partner logical-unit parameters" (
              plain "longLogicalUnitName" (bytes name)
              ∷ plain "partnerHostAddress" (bytes host)
              ∷ [])
      ]

unfoldable pub read_partner_logical_unit_parameters :
    Method Reader Error PartnerLogicalUnitParameters
read_partner_logical_unit_parameters = do
  name ← read_padded "longLogicalUnitName" 128 32
  host ← lift (Reader.read_bytes (pos 16) "partnerHostAddress")
  finish_reader
  pure (record { long_logical_unit_name = name; partner_host_address = host })

unfoldable pub decode_partner_logical_unit_parameters :
    List ℕ → Result Error PartnerLogicalUnitParameters
decode_partner_logical_unit_parameters content =
    if length content == 144
    then (read_partner_logical_unit_parameters
        (Reader.new_reader content "APPC partner logical-unit parameters")).0
    else err (wrong_length (length content))

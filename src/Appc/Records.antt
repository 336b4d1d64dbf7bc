-- ===== src/Appc/Records.antt =====
-- records.go: the record header with its defaults, and whole records.
use open_rfc_go.Base.{
  ℕ, ℤ, pos, negsuc, ◌+◌, ◌^◌, ◌<◌, Bool, true, false, Option, none, some, List, [], ◌∷◌, ◌++◌,
  length, replicate, ltb, ◌==◌, if◌then◌else◌, Result, ok, err, ◌>>=◌,
}
use open_rfc_go.Base.Text.{numbered}
use open_rfc_go.Appc.{Error, range, wrong_length, in_record, record_header_length}
use open_rfc_go.Appc.Ascii.{exact_bytes}
use open_rfc_go.Wire.Record.{Field, uint8, uint16, uint32, int32, bytes}
use open_rfc_go.Wire.Record.Puts.{Put, plain, compose_puts}
use Prim.Native.String.{String}
pub mod RoundTrip
pub mod Examples

-- A nil pointer is `none`.
pub record RecordHeaderInput : Type 0 where
  pub protocol : Option ℕ
  pub mode : Option ℕ
  pub uid : Option ℕ
  pub gateway_id : Option ℕ
  pub error_length : Option ℕ
  pub info2 : Option ℕ
  pub trace_level : Option ℕ
  pub time : Option ℕ
  pub info3 : Option ℕ
  pub timeout : Option ℤ
  pub info4 : Option ℕ
  pub sequence_number : Option ℕ
  pub padding : Option ℕ
  pub info : Option ℕ
  pub vector : Option ℕ
  pub appc_return_code : Option ℕ
  pub sap_return_code : Option ℕ
  pub conversation_id : Option (List ℕ)

-- u8or, u16or, u32or and i32or
abbrev pub or_default {ℓ} : {A : Type ℓ} → Option A → A → A
or_default (some a) d = a
or_default none d = d

-- Eight NUL bytes where the input has no ID; another length is refused.
unfoldable pub conversation_of : RecordHeaderInput → Result Error (List ℕ)
conversation_of input =
    let id : List ℕ = or_default input.conversation_id (replicate 8 0) in
    if length id == 8 then ok id else err (wrong_length (length id))

unfoldable pub sap_length : ℤ → Result Error ℕ
sap_length (negsuc n) = err range
sap_length (pos n) = if ltb 65535 n then err range else ok n

abbrev pub trailing_length : List (List ℕ) → ℕ
trailing_length [] = 0
trailing_length (part ∷ parts) = length part + trailing_length parts

-- The parts from the i-th on.
abbrev pub trailing_puts : ℕ → List (List ℕ) → List (Put Error)
trailing_puts i [] = []
trailing_puts i (part ∷ parts) =
    plain (numbered "trailingData" i) (bytes part) ∷ trailing_puts (i + 1) parts

abbrev pub record_puts :
    ℕ → RecordHeaderInput → List ℕ → List ℕ → ℕ → List (List ℕ) → List (Put Error)
record_puts function input conversation operation sap trailing =
    plain "protocolVersion" (uint8 6)
    ∷ plain "functionCode" (uint8 function)
    ∷ plain "protocol" (uint8 (or_default input.protocol 2))
    ∷ plain "mode" (uint8 (or_default input.mode 0))
    ∷ plain "uid" (uint16 (or_default input.uid 65535))
    ∷ plain "gatewayId" (uint16 (or_default input.gateway_id 0))
    ∷ plain "errorLength" (uint16 (or_default input.error_length 0))
    ∷ plain "info2" (uint8 (or_default input.info2 0))
    ∷ plain "traceLevel" (uint8 (or_default input.trace_level 0))
    ∷ plain "time" (uint32 (or_default input.time 0))
    ∷ plain "info3" (uint8 (or_default input.info3 0))
    ∷ plain "timeout" (int32 (or_default input.timeout (pos 0)))
    ∷ plain "info4" (uint8 (or_default input.info4 0))
    ∷ plain "sequenceNumber" (uint32 (or_default input.sequence_number 0))
    ∷ plain "sapParameterLength" (uint16 sap)
    ∷ plain "padding" (uint16 (or_default input.padding 0))
    ∷ plain "info" (uint8 (or_default input.info 0))
    ∷ plain "vector" (uint8 (or_default input.vector 0))
    ∷ plain "appcReturnCode" (uint32 (or_default input.appc_return_code 0))
    ∷ plain "sapReturnCode" (uint32 (or_default input.sap_return_code 0))
    ∷ plain "conversationId" (bytes conversation)
    ∷ plain "operationInfo" (bytes operation)
    ∷ trailing_puts 0 trailing

unfoldable pub encode_record :
    ℕ → RecordHeaderInput → List ℕ → ℤ → List (List ℕ) → String → Result Error (List ℕ)
encode_record function input operation_info sap_parameter_length trailing context = do
  conversation ← conversation_of input
  operation ← exact_bytes operation_info 32
  sap ← sap_length sap_parameter_length
  compose_puts in_record (pos (record_header_length + trailing_length trailing)) context
      (record_puts function input conversation operation sap trailing)

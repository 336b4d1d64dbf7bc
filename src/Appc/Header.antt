-- ===== src/Appc/Header.antt =====
-- appc.go: the 48-byte header that all records share.
use open_rfc_go.Base.{
  ℕ, ℤ, ◌≤◌, ◌≡◌, refl, true, false, List, [], ◌∷◌, length, take, drop, get_or, arith, ltb, ◌==◌,
  if◌then◌else◌, Result, ok, err, length-take,
}
use open_rfc_go.Base.Bytes.{uint16_be, uint32_be, to_int32}
use open_rfc_go.Base.Stateful.{Method, pure, ◌>>=◌, ◌>>◌}
use open_rfc_go.Appc.{
  Error, range, wrong_length, unsupported_version, common_header_length, lift, finish_reader,
}
use open_rfc_go.Wire.{context_or_default}
use open_rfc_go.Wire.Positions.{
  reader_at, read_uint8-reader_at, read_uint16_be-reader_at, read_uint32_be-reader_at,
  read_int32_be-reader_at, read_bytes-reader_at, finish_at,
}
use open_rfc_go.Wire.Reader
use open_rfc_go.Wire.Reader.{Reader}
use Prim.Native.String.{String}

-- The mnemonic of a function is left out, since its code gives it.
pub record PayloadInfo : Type 0 where
  pub protocol_version : ℕ
  pub function_code : ℕ

pub record Header : Type 0 where
  pub payload_info : PayloadInfo
  pub protocol : ℕ
  pub mode : ℕ
  pub uid : ℕ
  pub gateway_id : ℕ
  pub error_length : ℕ
  pub info2 : ℕ
  pub trace_level : ℕ
  pub time : ℕ
  pub info3 : ℕ
  pub timeout : ℤ
  pub info4 : ℕ
  pub sequence_number : ℕ
  pub sap_parameter_len : ℕ
  pub padding : ℕ
  pub info : ℕ
  pub vector : ℕ
  pub appc_return_code : ℕ
  pub sap_return_code : ℕ
  pub conversation_id : List ℕ

unfoldable pub inspect_payload : List ℕ → Result Error PayloadInfo
inspect_payload (version ∷ function ∷ rest) =
    if version == 6
    then ok (record { protocol_version = version; function_code = function })
    else err (unsupported_version version)
inspect_payload _ = err range

-- A call that does not touch the reader.
abbrev pub return_of : {S A : Type 0} → Result Error A → Method S Error A
return_of r s = (r, s)

unfoldable pub read_header : Method Reader Error Header
read_header = do
  version ← lift (Reader.read_uint8 "protocolVersion")
  function ← lift (Reader.read_uint8 "functionCode")
  payload ← return_of (inspect_payload (version ∷ function ∷ []))
  protocol ← lift (Reader.read_uint8 "protocol")
  mode ← lift (Reader.read_uint8 "mode")
  uid ← lift (Reader.read_uint16_be "uid")
  gateway ← lift (Reader.read_uint16_be "gatewayId")
  errors ← lift (Reader.read_uint16_be "errorLength")
  info2 ← lift (Reader.read_uint8 "info2")
  trace ← lift (Reader.read_uint8 "traceLevel")
  time ← lift (Reader.read_uint32_be "time")
  info3 ← lift (Reader.read_uint8 "info3")
  timeout ← lift (Reader.read_int32_be "timeout")
  info4 ← lift (Reader.read_uint8 "info4")
  sequence ← lift (Reader.read_uint32_be "sequenceNumber")
  sap ← lift (Reader.read_uint16_be "sapParameterLength")
  padding ← lift (Reader.read_uint16_be "padding")
  info ← lift (Reader.read_uint8 "info")
  vector ← lift (Reader.read_uint8 "vector")
  appc_code ← lift (Reader.read_uint32_be "appcReturnCode")
  sap_code ← lift (Reader.read_uint32_be "sapReturnCode")
  conversation ← lift (Reader.read_bytes (ℤ.pos 8) "conversationId")
  finish_reader
  pure (record {
    payload_info = payload;
    protocol = protocol;
    mode = mode;
    uid = uid;
    gateway_id = gateway;
    error_length = errors;
    info2 = info2;
    trace_level = trace;
    time = time;
    info3 = info3;
    timeout = timeout;
    info4 = info4;
    sequence_number = sequence;
    sap_parameter_len = sap;
    padding = padding;
    info = info;
    vector = vector;
    appc_return_code = appc_code;
    sap_return_code = sap_code;
    conversation_id = conversation;
  })

unfoldable pub decode_header : List ℕ → Result Error Header
decode_header payload =
    if ltb (length payload) common_header_length
    then err (wrong_length (length payload))
    else (read_header
        (Reader.new_reader (take common_header_length payload) "APPC common header")).0

-- The header that stands at the front of some bytes.
abbrev pub header_of : List ℕ → Header
header_of bs = record {
  payload_info = record { protocol_version = get_or bs 0 0; function_code = get_or bs 1 0 };
  protocol = get_or bs 2 0;
  mode = get_or bs 3 0;
  uid = uint16_be (drop 4 bs);
  gateway_id = uint16_be (drop 6 bs);
  error_length = uint16_be (drop 8 bs);
  info2 = get_or bs 10 0;
  trace_level = get_or bs 11 0;
  time = uint32_be (drop 12 bs);
  info3 = get_or bs 16 0;
  timeout = to_int32 (uint32_be (drop 17 bs));
  info4 = get_or bs 21 0;
  sequence_number = uint32_be (drop 22 bs);
  sap_parameter_len = uint16_be (drop 26 bs);
  padding = uint16_be (drop 28 bs);
  info = get_or bs 30 0;
  vector = get_or bs 31 0;
  appc_return_code = uint32_be (drop 32 bs);
  sap_return_code = uint32_be (drop 36 bs);
  conversation_id = take 8 (drop 40 bs);
}

abbrev header_context : String
header_context = "APPC common header"

read_header_at :
    (bs : List ℕ)
    → length bs ≡ 48
    → (get_or bs 0 0 == 6) ≡ true
    → (read_header (reader_at bs header_context 0)).0 ≡ ok (header_of bs)
unfolding read_header inspect_payload
read_header_at bs h six =
    let c = header_context in
    rw
      (
        read_uint8-reader_at bs c 0 "protocolVersion" (omega arith),
        read_uint8-reader_at bs c 1 "functionCode" (omega arith),
        six,
        read_uint8-reader_at bs c 2 "protocol" (omega arith),
        read_uint8-reader_at bs c 3 "mode" (omega arith),
        read_uint16_be-reader_at bs c 4 "uid" (omega arith),
        read_uint16_be-reader_at bs c 6 "gatewayId" (omega arith),
        read_uint16_be-reader_at bs c 8 "errorLength" (omega arith),
        read_uint8-reader_at bs c 10 "info2" (omega arith),
        read_uint8-reader_at bs c 11 "traceLevel" (omega arith),
        read_uint32_be-reader_at bs c 12 "time" (omega arith),
        read_uint8-reader_at bs c 16 "info3" (omega arith),
        read_int32_be-reader_at bs c 17 "timeout" (omega arith),
        read_uint8-reader_at bs c 21 "info4" (omega arith),
        read_uint32_be-reader_at bs c 22 "sequenceNumber" (omega arith),
        read_uint16_be-reader_at bs c 26 "sapParameterLength" (omega arith),
        read_uint16_be-reader_at bs c 28 "padding" (omega arith),
        read_uint8-reader_at bs c 30 "info" (omega arith),
        read_uint8-reader_at bs c 31 "vector" (omega arith),
        read_uint32_be-reader_at bs c 32 "appcReturnCode" (omega arith),
        read_uint32_be-reader_at bs c 36 "sapReturnCode" (omega arith),
        read_bytes-reader_at bs c 40 "conversationId" 8 (omega arith),
        finish_at bs c 48 (omega arith),
      )
      refl

-- What a payload of at least 48 bytes is decoded to; other versions than 6 are refused.
pub decode_header_exact :
    (bs : List ℕ)
    → 48 ≤ length bs
    → get_or bs 0 0 ≡ 6
    → decode_header bs ≡ ok (header_of (take 48 bs))
unfolding decode_header Reader.new_reader context_or_default
decode_header_exact [] h six = absurd (omega arith)
decode_header_exact (b ∷ bs) h six =
    let long : ltb (length (b ∷ bs)) 48 ≡ false = ground arith in
    let sized : length (take 48 (b ∷ bs)) ≡ 48 = omega (arith, length-take 48 (b ∷ bs)) in
    let first : (b == 6) ≡ true = ground arith in
    rw long (read_header_at (take 48 (b ∷ bs)) sized first)

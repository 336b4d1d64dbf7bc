-- ===== src/Appc/Records/RoundTrip.antt =====
-- records.go and appc.go: what encodeRecord writes is what DecodeHeader reads.
use open_rfc_go.Base.{
  concat, ℕ, ℤ, pos, ◌+◌, ◌^◌, ◌≤◌, ◌<◌, ◌≡◌, refl, sym, ap, ◌∙◌, true, false, List, [], ◌∷◌, ◌++◌,
  length, length-append, take, drop, take-append, take_all, drop-append, drop-drop, replicate,
  arith, ltb, ◌==◌, ok,
}
use open_rfc_go.Base.Bytes.{
  IsInt32, uint32_be, to_int32, of_int32, put_uint16_be, put_uint32_be, to_int32-of_int32,
  of_int32-lt, uint16_be-put, uint32_be-put,
}
use open_rfc_go.Appc.{in_record}
use open_rfc_go.Appc.Ascii.{exact_bytes_ok}
use open_rfc_go.Appc.Header.{Header, header_of, decode_header, decode_header_exact}
use open_rfc_go.Appc.Records.{
  RecordHeaderInput, or_default, conversation_of, sap_length, trailing_length, trailing_puts,
  record_puts, encode_record,
}
use open_rfc_go.Wire.Record.Puts.{compose_puts_ok, put_bytes, AllOk}
use Prim.Native.String.{String}

-- Each field is in the range of its Go type.
pub record IsInput (function : ℕ) (input : RecordHeaderInput) : Type 0 where
  pub function_byte : function < 256
  pub protocol_byte : or_default input.protocol 2 < 256
  pub mode_byte : or_default input.mode 0 < 256
  pub uid_word : or_default input.uid 65535 < 65536
  pub gateway_word : or_default input.gateway_id 0 < 65536
  pub error_word : or_default input.error_length 0 < 65536
  pub info2_byte : or_default input.info2 0 < 256
  pub trace_byte : or_default input.trace_level 0 < 256
  pub time_word : or_default input.time 0 < 2 ^ 32
  pub info3_byte : or_default input.info3 0 < 256
  pub timeout_word : IsInt32 (or_default input.timeout (pos 0))
  pub info4_byte : or_default input.info4 0 < 256
  pub sequence_word : or_default input.sequence_number 0 < 2 ^ 32
  pub padding_word : or_default input.padding 0 < 65536
  pub info_byte : or_default input.info 0 < 256
  pub vector_byte : or_default input.vector 0 < 256
  pub appc_word : or_default input.appc_return_code 0 < 2 ^ 32
  pub sap_word : or_default input.sap_return_code 0 < 2 ^ 32
  pub id_length : length (or_default input.conversation_id (replicate 8 0)) ≡ 8

-- The header that an input stands for.
abbrev pub header_for : ℕ → RecordHeaderInput → ℕ → Header
header_for function input sap = record {
  payload_info = record { protocol_version = 6; function_code = function };
  protocol = or_default input.protocol 2;
  mode = or_default input.mode 0;
  uid = or_default input.uid 65535;
  gateway_id = or_default input.gateway_id 0;
  error_length = or_default input.error_length 0;
  info2 = or_default input.info2 0;
  trace_level = or_default input.trace_level 0;
  time = or_default input.time 0;
  info3 = or_default input.info3 0;
  timeout = or_default input.timeout (pos 0);
  info4 = or_default input.info4 0;
  sequence_number = or_default input.sequence_number 0;
  sap_parameter_len = sap;
  padding = or_default input.padding 0;
  info = or_default input.info 0;
  vector = or_default input.vector 0;
  appc_return_code = or_default input.appc_return_code 0;
  sap_return_code = or_default input.sap_return_code 0;
  conversation_id = or_default input.conversation_id (replicate 8 0);
}

put_bytes-trailing :
    (i : ℕ) (parts : List (List ℕ)) → put_bytes in_record (trailing_puts i parts) ≡ concat parts
put_bytes-trailing i [] = refl
put_bytes-trailing i (p ∷ ps) = ap (λ xs. p ++ xs) (put_bytes-trailing (i + 1) ps)

trailing-AllOk : (i : ℕ) (parts : List (List ℕ)) → AllOk in_record (trailing_puts i parts)
trailing-AllOk i [] = tt
trailing-AllOk i (p ∷ ps) = trailing-AllOk (i + 1) ps

length-concat : (parts : List (List ℕ)) → length (concat parts) ≡ trailing_length parts
length-concat [] = refl
length-concat (p ∷ ps) = omega (arith, length-append p (concat ps), length-concat ps)

-- The 40 bytes before the conversation ID.
abbrev front_bytes : ℕ → RecordHeaderInput → ℕ → List ℕ
front_bytes function input sap =
    6
    ∷ function
    ∷ or_default input.protocol 2
    ∷ or_default input.mode 0
    ∷ (put_uint16_be (or_default input.uid 65535)
        ++ (put_uint16_be (or_default input.gateway_id 0)
            ++ (put_uint16_be (or_default input.error_length 0)
                ++ (or_default input.info2 0
                    ∷ or_default input.trace_level 0
                    ∷ (put_uint32_be (or_default input.time 0)
                        ++ (or_default input.info3 0
                            ∷ (put_uint32_be (of_int32 (or_default input.timeout (pos 0)))
                                ++ (or_default input.info4 0
                                    ∷ (put_uint32_be (or_default input.sequence_number 0)
                                        ++ (put_uint16_be sap
                                            ++ (put_uint16_be (or_default input.padding 0)
                                                ++ (or_default input.info 0
                                                    ∷ or_default input.vector 0
                                                    ∷ (put_uint32_be
                                                          (or_default input.appc_return_code 0)
                                                        ++ put_uint32_be (
                                                            or_default input.sap_return_code
                                                            0))))))))))))))

take_twice : (id rest : List ℕ) → length id ≡ 8 → take 8 (take 8 (id ++ rest)) ≡ id
take_twice id rest h =
    ap (λ n. take 8 (take n (id ++ rest))) (sym h)
    ∙ ap (take 8) (take-append id rest)
    ∙ take_all 8 id (omega arith)

timeout_back : (z : ℤ) → IsInt32 z → to_int32 (uint32_be (put_uint32_be (of_int32 z) ++ [])) ≡ z
timeout_back z h =
    ap to_int32 (uint32_be-put (of_int32 z) [] (of_int32-lt z)) ∙ to_int32-of_int32 z h

-- A header is read back from its bytes, whatever follows them.
header_of-front :
    (function : ℕ) (input : RecordHeaderInput) (sap : ℕ) (rest : List ℕ)
    → IsInput function input
    → sap < 65536
    → header_of (
        take 48 (
          front_bytes function input sap
          ++ (or_default input.conversation_id (replicate 8 0) ++ rest)))
      ≡ header_for function input sap
header_of-front function input sap rest v s = λ i. record {
  payload_info = record { protocol_version = 6; function_code = function };
  protocol = or_default input.protocol 2;
  mode = or_default input.mode 0;
  uid = uint16_be-put (or_default input.uid 65535) [] v.uid_word i;
  gateway_id = uint16_be-put (or_default input.gateway_id 0) [] v.gateway_word i;
  error_length = uint16_be-put (or_default input.error_length 0) [] v.error_word i;
  info2 = or_default input.info2 0;
  trace_level = or_default input.trace_level 0;
  time = uint32_be-put (or_default input.time 0) [] v.time_word i;
  info3 = or_default input.info3 0;
  timeout = timeout_back (or_default input.timeout (pos 0)) v.timeout_word i;
  info4 = or_default input.info4 0;
  sequence_number = uint32_be-put (or_default input.sequence_number 0) [] v.sequence_word i;
  sap_parameter_len = uint16_be-put sap [] s i;
  padding = uint16_be-put (or_default input.padding 0) [] v.padding_word i;
  info = or_default input.info 0;
  vector = or_default input.vector 0;
  appc_return_code = uint32_be-put (or_default input.appc_return_code 0) [] v.appc_word i;
  sap_return_code = uint32_be-put (or_default input.sap_return_code 0) [] v.sap_word i;
  conversation_id =
      take_twice (or_default input.conversation_id (replicate 8 0)) rest v.id_length i;
}

-- The bytes of a record.
abbrev pub record_bytes : ℕ → RecordHeaderInput → List ℕ → ℕ → List (List ℕ) → List ℕ
record_bytes function input operation sap trailing =
    front_bytes function input sap
    ++ (or_default input.conversation_id (replicate 8 0) ++ (operation ++ concat trailing))

encode_record_bytes :
    (function : ℕ) (input : RecordHeaderInput) (operation : List ℕ) (sap : ℕ)
    (trailing : List (List ℕ)) (context : String)
    → IsInput function input
    → length operation ≡ 32
    → sap < 65536
    → encode_record function input operation (pos sap) trailing context
      ≡ ok (record_bytes function input operation sap trailing)
unfolding encode_record conversation_of sap_length
encode_record_bytes function input operation sap trailing context v o s =
    let id : List ℕ = or_default input.conversation_id (replicate 8 0) in
    let eight : (length id == 8) ≡ true = ground arith in
    let fits : ltb 65535 sap ≡ false = ground arith in
    let joined : put_bytes in_record (trailing_puts 0 trailing) ≡ concat trailing =
      put_bytes-trailing 0 trailing in
    rw (eight, exact_bytes_ok operation 32 o, fits)
      (compose_puts_ok in_record (80 + trailing_length trailing) context
          (record_puts function input id operation sap trailing) (trailing-AllOk 0 trailing)
          (omega (
            arith,
            v.id_length,
            length-append id (operation ++ put_bytes in_record (trailing_puts 0 trailing)),
            length-append operation (put_bytes in_record (trailing_puts 0 trailing)),
            ap (length {A = ℕ}) joined,
            length-concat trailing,
          ))
        ∙ ap (λ xs. ok (front_bytes function input sap ++ (id ++ (operation ++ xs)))) joined)

-- Cutting a record behind its conversation ID, and behind its operation information.
cut_id : (id rest : List ℕ) → length id ≡ 8 → drop 8 (id ++ rest) ≡ rest
cut_id id rest h = ap (λ n. drop n (id ++ rest)) (sym h) ∙ drop-append id rest

operation_there :
    (id operation rest : List ℕ)
    → length id ≡ 8
    → length operation ≡ 32
    → take 32 (drop 8 (id ++ (operation ++ rest))) ≡ operation
operation_there id operation rest h o =
    ap (take 32) (cut_id id (operation ++ rest) h)
    ∙ ap (λ n. take n (operation ++ rest)) (sym o)
    ∙ take-append operation rest

trailing_there :
    (id operation rest : List ℕ)
    → length id ≡ 8
    → length operation ≡ 32
    → drop 40 (id ++ (operation ++ rest)) ≡ rest
trailing_there id operation rest h o =
    sym (drop-drop 32 8 (id ++ (operation ++ rest)))
    ∙ ap (drop 32) (cut_id id (operation ++ rest) h)
    ∙ ap (λ n. drop n (operation ++ rest)) (sym o)
    ∙ drop-append operation rest

-- What a record holds: a header that DecodeHeader reads, the operation information, and the data.
pub record Holds (bs : List ℕ) (header : Header) (operation content : List ℕ) : Type 0 where
  pub long : 80 ≤ length bs
  pub decoded : decode_header bs ≡ ok header
  pub operation_part : take 32 (drop 48 bs) ≡ operation
  pub content_part : drop 80 bs ≡ content

-- A record is encoded without error from an input in range, 32 bytes of operation information, a
-- parameter length of 16 bits and any data; its header is decoded to the values given, or their
-- defaults, and the operation information and the data stand behind it.
pub encode_record-Holds :
    (function : ℕ) (input : RecordHeaderInput) (operation : List ℕ) (sap : ℕ)
    (trailing : List (List ℕ)) (context : String)
    → IsInput function input
    → length operation ≡ 32
    → sap < 65536
    → (bs : List ℕ) × (encode_record function input operation (pos sap) trailing context ≡ ok bs)
      × Holds bs (header_for function input sap) operation (concat trailing)
encode_record-Holds function input operation sap trailing context v o s =
    let id : List ℕ = or_default input.conversation_id (replicate 8 0) in
    let rest : List ℕ = operation ++ concat trailing in
    let bs = record_bytes function input operation sap trailing in
    let sized : length (id ++ rest) ≡ 8 + (32 + length (concat trailing)) =
      omega
        (arith, v.id_length, length-append id rest, length-append operation (concat trailing)) in
    (
      bs,
      encode_record_bytes function input operation sap trailing context v o s,
      record {
        long = omega (arith, sized);
        decoded =
            decode_header_exact bs (omega (arith, sized)) refl
            ∙ ap ok (header_of-front function input sap rest v s);
        operation_part = operation_there id operation (concat trailing) v.id_length o;
        content_part = trailing_there id operation (concat trailing) v.id_length o;
      },
    )

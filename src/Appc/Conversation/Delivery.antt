-- ===== src/Appc/Conversation/Delivery.antt =====
-- records.go and conversation.go together: a message that is cut into data records by the encoder is put
-- together by the decoder.
use open_rfc_go.Base.{
  ℕ, ◌+◌, ◌≤◌, ◌<◌, ◌≡◌, refl, sym, ap, ◌∙◌, subst, Bool, true, false, some, none, Option, List, [],
  ◌∷◌, ◌++◌, concat, length, replicate, append-nil, arith, if◌then◌else◌, Result, ok, err,
}
use open_rfc_go.Base.Bytes.{put_uint16_be, uint16_be-put}
use open_rfc_go.Appc.{
  Error, in_record, func_sap_send, func_receive, decode_incoming_data_operation_info,
}
use open_rfc_go.Appc.Ascii.{all_printable, encode_fixed_ascii}
use open_rfc_go.Appc.Control.{
  DataRecordInput, indices_info, default_info, default_vector, data_header, encode_data_record,
}
use open_rfc_go.Appc.Info.{encode_extended_info}
use open_rfc_go.Appc.Records.{RecordHeaderInput, or_default}
use open_rfc_go.Appc.Records.RoundTrip.{IsInput, encode_record-Holds}
use open_rfc_go.Appc.Conversation.{has_end_of_message}
use open_rfc_go.Appc.Conversation.Decoder.{ConversationDecoder}
use open_rfc_go.Appc.Conversation.Parts.{Ids, IsPart}
use open_rfc_go.Appc.Conversation.Reassembly.{
  push_all, records, contents, AllParts, push_all-reassembles,
}
use open_rfc_go.Wire.Record.Puts.{compose_puts_ok}

-- The operation information of indices alone, and what it says to the receiver.
indices_info-read :
    (communication connection : ℕ)
    → communication < 65536
    → connection < 65536
    → (bs : List ℕ) × (encode_extended_info (indices_info communication connection) ≡ ok bs)
      × (length bs ≡ 32)
      × (decode_incoming_data_operation_info bs
          ≡ ok (record {
            data_length = 0;
            communication_index = communication;
            connection_index = connection;
          }))
unfolding encode_extended_info encode_fixed_ascii all_printable decode_incoming_data_operation_info
indices_info-read communication connection h k = (
  replicate 28 0 ++ (put_uint16_be communication ++ (put_uint16_be connection ++ [])),
  compose_puts_ok in_record 32 "APPC extended info" _ tt refl,
  refl,
  λ i. ok (record {
    data_length = 0;
    communication_index = uint16_be-put communication (put_uint16_be connection ++ []) h i;
    connection_index = uint16_be-put connection [] k i;
  }),
)

-- What a message's records have in common: no vector or return code of their own, and 16-bit indices.
pub record IsSender (base : RecordHeaderInput) (communication connection : ℕ) : Type 0 where
  pub fields : IsInput 0 base
  pub no_vector : base.vector ≡ none
  pub no_appc_code : or_default base.appc_return_code 0 ≡ 0
  pub no_sap_code : or_default base.sap_return_code 0 ≡ 0
  pub communication_word : communication < 65536
  pub connection_word : connection < 65536

-- Encodings in order, up to the first error.
abbrev pub encode_data_records : List DataRecordInput → Result Error (List (List ℕ))
encode_data_records [] = ok []
encode_data_records (r ∷ rs) = elim (encode_data_record r) [
  | err e ↦ err e
  | ok bs ↦ elim (encode_data_records rs) [ err e ↦ err e | ok bss ↦ ok (bs ∷ bss) ]
]

info_small :
    (o : Option ℕ) (final : Bool) → or_default o 0 < 256 → or_default o (default_info final) < 256
info_small none final h = ground arith
info_small (some n) final h = h

vector_small : (final : Bool) (f : ℕ) → default_vector final f < 256
vector_small final f = ground arith

encode_data_records-step :
    (r : DataRecordInput) (rs : List DataRecordInput) (bs : List ℕ) (bss : List (List ℕ))
    → encode_data_record r ≡ ok bs
    → encode_data_records rs ≡ ok bss
    → encode_data_records (r ∷ rs) ≡ ok (bs ∷ bss)
encode_data_records-step r rs bs bss h k = rw (encode_data_records, h, k) refl

length-contents : (parts : List (List ℕ × List ℕ)) → length (contents parts) ≡ length parts
length-contents [] = refl
length-contents (p ∷ ps) = omega (arith, length-contents ps)

module _ (base : RecordHeaderInput) (communication connection : ℕ) where
  abbrev pub data_record : ℕ → Bool → List ℕ → DataRecordInput
  data_record f final content = record {
    header = base;
    function_code = some f;
    content = content;
    communication_index = communication;
    connection_index = connection;
    is_final = some final;
  }

  abbrev pub sender_ids : Ids
  sender_ids = record {
    conversation_id = or_default base.conversation_id (replicate 8 0);
    sequence_number = or_default base.sequence_number 0;
    communication_index = communication;
    connection_index = connection;
  }

  -- The pieces behind the first, of which `ending` is the last.
  abbrev pub further_records : List (List ℕ) → List ℕ → List DataRecordInput
  further_records [] ending = data_record func_receive true ending ∷ []
  further_records (piece ∷ pieces) ending =
      data_record func_receive false piece ∷ further_records pieces ending

  data_header-IsInput :
      (f : ℕ) (final : Bool)
      → IsSender base communication connection
      → f < 256
      → IsInput f (data_header base final f)
  data_header-IsInput f final v h = record {
    function_byte = h;
    protocol_byte = v.fields.protocol_byte;
    mode_byte = v.fields.mode_byte;
    uid_word = v.fields.uid_word;
    gateway_word = v.fields.gateway_word;
    error_word = v.fields.error_word;
    info2_byte = v.fields.info2_byte;
    trace_byte = v.fields.trace_byte;
    time_word = v.fields.time_word;
    info3_byte = v.fields.info3_byte;
    timeout_word = v.fields.timeout_word;
    info4_byte = v.fields.info4_byte;
    sequence_word = v.fields.sequence_word;
    padding_word = v.fields.padding_word;
    info_byte = info_small base.info final v.fields.info_byte;
    vector_byte = rw v.no_vector (vector_small final f);
    appc_word = v.fields.appc_word;
    sap_word = v.fields.sap_word;
    id_length = v.fields.id_length;
  }

  encode_data_record-IsPart :
      (f : ℕ) (final : Bool) (content : List ℕ)
      → IsSender base communication connection
      → f < 256
      → has_end_of_message (default_vector final f) ≡ final
      → (bs : List ℕ) × (encode_data_record (data_record f final content) ≡ ok bs)
        × IsPart false sender_ids f final bs content
  unfolding encode_data_record
  encode_data_record-IsPart f final content v h flag =
      let (operation, encoded, width, read) =
        indices_info-read communication connection v.communication_word v.connection_word in
      let sap : ℕ = if final then 8 else 0 in
      let small : sap < 65536 = ground arith in
      let (bs, made, held) =
        encode_record-Holds f (data_header base final f) operation sap (content ∷ [])
          "APPC data record" (data_header-IsInput f final v h) width small in
      (
        bs,
        rw encoded made,
        record {
          header = _;
          info = _;
          long = held.long;
          decoded = held.decoded;
          informed = ap decode_incoming_data_operation_info held.operation_part ∙ read;
          content_part = held.content_part ∙ append-nil content;
          counted = refl;
          has_function = refl;
          has_flag = rw v.no_vector flag;
          no_appc_code = v.no_appc_code;
          no_sap_code = v.no_sap_code;
          same_conversation = refl;
          same_sequence = refl;
          same_communication = refl;
          same_connection = refl;
        },
      )

  -- The records behind the first, encoded, are parts that continue the message.
  further-AllParts :
      (pieces : List (List ℕ)) (ending : List ℕ)
      → IsSender base communication connection
      → (middle : List (List ℕ × List ℕ)) × (last : List ℕ) × (encode_data_records
            (further_records pieces ending)
          ≡ ok (records middle ++ (last ∷ [])))
        × (contents middle ≡ pieces)
        × AllParts false sender_ids middle
        × IsPart false sender_ids func_receive true last ending
  further-AllParts [] ending v =
      let (bs, made, part) =
        encode_data_record-IsPart func_receive true ending v (omega arith) refl in
      ([], bs, encode_data_records-step _ [] bs [] made refl, refl, tt, part)
  further-AllParts (piece ∷ pieces) ending v =
      let (bs, made, part) =
        encode_data_record-IsPart func_receive false piece v (omega arith) refl in
      let (middle, last, rest, same, parts, end_part) = further-AllParts pieces ending v in
      (
        (bs, piece) ∷ middle,
        last,
        encode_data_records-step _ _ bs _ made rest,
        ap (λ ps. piece ∷ ps) same,
        (part, parts),
        end_part,
      )

  -- a message cut into two or more pieces, each sent as a data record (the first with F_SAP_SEND, the
  -- others with F_RECEIVE, the last one final) by a sender whose input is in range and without a vector
  -- or return code, is encoded without error, and a decoder with nothing pending that does not check the
  -- length in the information delivers it whole from those records, if it is within the limits.
  pub push_all-encode_data_records :
      (d : ConversationDecoder) (first : List ℕ) (pieces : List (List ℕ)) (ending : List ℕ)
      → IsSender base communication connection
      → d.validates_info ≡ false
      → d.pending ≡ none
      → length (first ++ (concat pieces ++ ending)) ≤ d.max_message_length
      → length pieces + 2 ≤ d.max_fragments
      → (bss : List (List ℕ)) × (encode_data_records
            (data_record func_sap_send false first ∷ further_records pieces ending)
          ≡ ok bss)
        × (push_all bss d ≡ (
          ok (
              record {
                content = first ++ (concat pieces ++ ending);
                conversation_id = or_default base.conversation_id (replicate 8 0);
                sequence_number = or_default base.sequence_number 0;
                fragment_count = length pieces + 2;
                communication_index = communication;
                connection_index = connection;
              }
              ∷ []),
          d,
        ))
  push_all-encode_data_records d first pieces ending v unchecked fresh n k =
      let (bs, made, part) =
        encode_data_record-IsPart func_sap_send false first v (omega arith) refl in
      let (middle, last, rest, same, parts, end_part) = further-AllParts pieces ending v in
      let sizes : length middle ≡ length pieces =
        sym (length-contents middle) ∙ ap (length {A = List ℕ}) same in
      (
        bs ∷ (records middle ++ (last ∷ [])),
        encode_data_records-step _ _ bs _ made rest,
        push_all-reassembles sender_ids d bs first middle last ending
              (subst (λ b. IsPart b sender_ids func_sap_send false bs first) (sym unchecked) part)
              (subst (λ b. AllParts b sender_ids middle) (sym unchecked) parts)
              (subst (λ b. IsPart b sender_ids func_receive true last ending) (sym unchecked)
                end_part)
              fresh
              (subst (λ ps. length (first ++ (concat ps ++ ending)) ≤ d.max_message_length)
                (sym same) n)
              (omega (arith, k, sizes))
            ∙ λ i. (
              ok (
                  record {
                    content = first ++ (concat (same i) ++ ending);
                    conversation_id = or_default base.conversation_id (replicate 8 0);
                    sequence_number = or_default base.sequence_number 0;
                    fragment_count = sizes i + 2;
                    communication_index = communication;
                    connection_index = connection;
                  }
                  ∷ []),
              d,
            ),
      )

-- ===== src/Appc/Conversation/Examples.antt =====
-- Runs of conversation.go, and its theorems at concrete records.
use open_rfc_go.Base.{
  ℕ, pos, ◌+◌, ◌*◌, ◌≤◌, ◌≡◌, refl, Bool, true, false, some, none, List, [], ◌∷◌, ◌++◌, length,
  replicate, take, arith, ok,
}
use open_rfc_go.Appc.{func_sap_send, decode_incoming_data_operation_info}
use open_rfc_go.Appc.Header.{header_of, decode_header_exact}
use open_rfc_go.Appc.Conversation.{has_end_of_message}
use open_rfc_go.Appc.Conversation.Decoder.{
  ConversationDecoder, checked_decoder, new_conversation_decoder, buffered_byte_length,
  fragment_count,
}
use open_rfc_go.Appc.Conversation.Limits.{AllWithin}
use open_rfc_go.Appc.Conversation.Calls.{Call, ordinary, calls, calls-IsWithin}
use open_rfc_go.Appc.Conversation.Delivery.{
  IsSender, encode_data_records, data_record, further_records, push_all-encode_data_records,
}
use open_rfc_go.Appc.Records.Examples.{no_input, no_input-IsInput}
use open_rfc_go.Appc.Conversation.Parts.{Ids, IsPart}
use open_rfc_go.Appc.Conversation.Reassembly.{push_all, push_all-reassembles}

-- A record without IDs, whose length stands in its operation information.
abbrev record_of : ℕ → ℕ → ℕ → List ℕ → List ℕ
record_of f vector n content =
    6 ∷ f ∷ (replicate 29 0 ++ (vector ∷ (replicate 26 0 ++ (0 ∷ n ∷ (replicate 20 0 ++ content)))))

abbrev no_ids : Ids
no_ids = record {
  conversation_id = replicate 8 0;
  sequence_number = 0;
  communication_index = 0;
  connection_index = 0;
}

record_of-IsPart :
    (f vector n : ℕ) (final : Bool) (content : List ℕ)
    → has_end_of_message vector ≡ final
    → n ≡ length content
    → IsPart true no_ids f final (record_of f vector n content) content
unfolding decode_incoming_data_operation_info
record_of-IsPart f vector n final content flag counted = record {
  header = header_of (take 48 (record_of f vector n content));
  info = record { data_length = 0 * 256 + n; communication_index = 0; connection_index = 0 };
  long = omega arith;
  decoded = decode_header_exact (record_of f vector n content) (omega arith) refl;
  informed = refl;
  content_part = refl;
  counted = ground (arith, counted);
  has_function = refl;
  has_flag = flag;
  no_appc_code = refl;
  no_sap_code = refl;
  same_conversation = refl;
  same_sequence = refl;
  same_communication = refl;
  same_connection = refl;
}

abbrev small_decoder : ConversationDecoder
small_decoder = record {
  max_message_length = 4;
  max_fragments = 3;
  allow_initial_receive = false;
  validates_info = true;
  pending = none;
}

abbrev first_record : List ℕ
first_record = record_of 203 0 2 (1 ∷ 2 ∷ [])

abbrev middle_record : List ℕ
middle_record = record_of 9 0 1 (3 ∷ [])

abbrev last_record : List ℕ
last_record = record_of 9 4 1 (4 ∷ [])

push_all-reassembles_example :
    push_all (first_record ∷ middle_record ∷ last_record ∷ []) small_decoder ≡ (
      ok (
          record {
            content = 1 ∷ 2 ∷ 3 ∷ 4 ∷ [];
            conversation_id = replicate 8 0;
            sequence_number = 0;
            fragment_count = 3;
            communication_index = 0;
            connection_index = 0;
          }
          ∷ []),
      small_decoder,
    )
push_all-reassembles_example =
    push_all-reassembles no_ids small_decoder first_record (1 ∷ 2 ∷ [])
      ((middle_record, 3 ∷ []) ∷ []) last_record (4 ∷ [])
      (record_of-IsPart 203 0 2 false (1 ∷ 2 ∷ []) refl refl)
      (record_of-IsPart 9 0 1 false (3 ∷ []) refl refl, tt)
      (record_of-IsPart 9 4 1 true (4 ∷ []) refl refl) refl (omega arith) (omega arith)

-- The first record is over the limit, and refused; the second is a message by itself.
abbrev over_and_under : List Call
over_and_under =
    ordinary (record_of 203 4 5 (1 ∷ 2 ∷ 3 ∷ 4 ∷ 5 ∷ []))
    ∷ ordinary (record_of 203 4 1 (7 ∷ []))
    ∷ []

calls-IsWithin_example :
    AllWithin small_decoder (calls over_and_under small_decoder).0
    × (buffered_byte_length (calls over_and_under small_decoder).1 ≤ 4)
    × (fragment_count (calls over_and_under small_decoder).1 ≤ 3)
unfolding new_conversation_decoder checked_decoder
calls-IsWithin_example =
    calls-IsWithin (some (pos 4)) (some (pos 3)) false true small_decoder over_and_under refl

-- Without fields of its own, a sender's input is in range.
no_input-IsSender : IsSender no_input 1 2
no_input-IsSender = record {
  fields = no_input-IsInput 0 (omega arith);
  no_vector = refl;
  no_appc_code = refl;
  no_sap_code = refl;
  communication_word = omega arith;
  connection_word = omega arith;
}

abbrev unchecked_decoder : ConversationDecoder
unchecked_decoder = record small_decoder { validates_info = false }

push_all-encode_data_records_example :
    (bss : List (List ℕ)) × (encode_data_records (
        data_record no_input 1 2 func_sap_send false (1 ∷ 2 ∷ [])
        ∷ further_records no_input 1 2 ((3 ∷ []) ∷ []) (4 ∷ []))
      ≡ ok bss)
    × (push_all bss unchecked_decoder ≡ (
      ok (
          record {
            content = 1 ∷ 2 ∷ 3 ∷ 4 ∷ [];
            conversation_id = replicate 8 0;
            sequence_number = 0;
            fragment_count = 3;
            communication_index = 1;
            connection_index = 2;
          }
          ∷ []),
      unchecked_decoder,
    ))
push_all-encode_data_records_example =
    push_all-encode_data_records no_input 1 2 unchecked_decoder (1 ∷ 2 ∷ []) ((3 ∷ []) ∷ [])
      (4 ∷ []) no_input-IsSender refl refl (omega arith) (omega arith)

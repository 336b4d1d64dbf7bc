-- ===== src/Appc/Conversation/Parts.antt =====
-- conversation.go: the effect of one data record of a message in several records.
use open_rfc_go.Base.{
  append-nil, length-drop, ℕ, ◌+◌, ◌-◌, ◌≤◌, ◌≡◌, refl, sym, ap, ◌∙◌, Bool, true, false, not, ◌||◌,
  Option, none, some, List, [], ◌∷◌, ◌++◌, length, length-append, concat, length-concat-snoc, take,
  drop, ltb, leb, ◌==◌, if◌then◌else◌, ok, arith,
}
use open_rfc_go.Appc.{
  record_header_length, func_receive, func_sap_send, DataOperationInfo,
  decode_incoming_data_operation_info,
}
use open_rfc_go.Appc.Header.{Header, decode_header}
use open_rfc_go.Appc.Conversation.{DataFragment, is_data, has_end_of_message, decode_data_fragment}
use open_rfc_go.Appc.Conversation.Decoder.{
  held_bytes, held_fragments, PendingMessage, ConversationDecoder, check_limits, bytes_equal,
  match_pending, new_pending, assembled, extended, Pushed, begin_message, continue_message,
  sap_send_on, receive_on, push_fragment, push_ordinary, check_codes, check_budget, push_data,
  push_record, settle, push,
}

-- What the records of one message have in common.
pub record Ids : Type 0 where
  pub conversation_id : List ℕ
  pub sequence_number : ℕ
  pub communication_index : ℕ
  pub connection_index : ℕ

-- A record of the message, for a decoder that validates the length in its information or not: its
-- function, whether it has the end-of-message flag, and its data.
pub record IsPart (validates : Bool) (ids : Ids) (function : ℕ) (final : Bool) (bs content : List ℕ)
    : Type 0 where
  pub header : Header
  pub info : DataOperationInfo
  pub long : record_header_length ≤ length bs
  pub decoded : decode_header bs ≡ ok header
  pub informed : decode_incoming_data_operation_info (take 32 (drop 48 bs)) ≡ ok info
  pub content_part : drop record_header_length bs ≡ content
  pub counted : (not validates || info.data_length == length content) ≡ true
  pub has_function : header.payload_info.function_code ≡ function
  pub has_flag : has_end_of_message header.vector ≡ final
  pub no_appc_code : header.appc_return_code ≡ 0
  pub no_sap_code : header.sap_return_code ≡ 0
  pub same_conversation : header.conversation_id ≡ ids.conversation_id
  pub same_sequence : header.sequence_number ≡ ids.sequence_number
  pub same_communication : info.communication_index ≡ ids.communication_index
  pub same_connection : info.connection_index ≡ ids.connection_index

abbrev fragment_of : Header → List ℕ → DataFragment
fragment_of h content = record {
  header = h;
  content = content;
  is_final = has_end_of_message h.vector;
}

abbrev pub pending_of : Ids → List (List ℕ) → PendingMessage
pending_of ids chunks = record {
  chunks = chunks;
  conversation_id = ids.conversation_id;
  sequence_number = ids.sequence_number;
  byte_length = length (concat chunks);
  fragment_count = length chunks;
  communication_index = ids.communication_index;
  connection_index = ids.connection_index;
}

same_number : (n : ℕ) → (n == n) ≡ true
same_number n = ground arith

bytes_equal_refl : (bs : List ℕ) → bytes_equal bs bs ≡ true
unfolding bytes_equal
bytes_equal_refl [] = refl
bytes_equal_refl (b ∷ bs) = ground (arith, bytes_equal_refl bs)

check_codes_ok :
    (h : Header) → h.appc_return_code ≡ 0 → h.sap_return_code ≡ 0 → check_codes false h ≡ ok tt
unfolding check_codes
check_codes_ok h a s = ground arith

check_limits_ok :
    (d : ConversationDecoder) (n count : ℕ)
    → n ≤ d.max_message_length
    → count ≤ d.max_fragments
    → check_limits d n count ≡ ok tt
unfolding check_limits
check_limits_ok d n count h k = ground arith

decode_data_fragment_ok :
    (bs : List ℕ) (h : Header)
    → record_header_length ≤ length bs
    → decode_header bs ≡ ok h
    → is_data h ≡ true
    → decode_data_fragment bs ≡ ok (fragment_of h (drop record_header_length bs))
unfolding decode_data_fragment
decode_data_fragment_ok bs h long decoded data_record =
    let fits : leb 80 (length bs) ≡ true = ground arith in rw (fits, decoded, data_record) refl

not_below : (n k : ℕ) → k ≤ n → ltb n k ≡ false
not_below n k h = ground arith

-- The decoder with the given limits and flags, and with `p` pending.
abbrev pub holding : ConversationDecoder → Option PendingMessage → ConversationDecoder
holding d p = record d { pending = p }

-- A data record in range gets as far as the switch on its function.
push_record_ok :
    (ids : Ids) (function : ℕ) (final : Bool) (bs content : List ℕ) (d : ConversationDecoder)
    (r : IsPart d.validates_info ids function final bs content)
    → is_data r.header ≡ true
    → held_bytes d.pending + length content ≤ d.max_message_length
    → held_fragments d.pending + 1 ≤ d.max_fragments
    → push_record false d bs ≡ push_ordinary d (fragment_of r.header content) r.info
unfolding push_record push_data push_fragment check_budget
push_record_ok ids function final bs content d r data_record n k =
    let sized : length bs - 80 ≡ length content =
      sym (length-drop 80 bs) ∙ ap (length {A = ℕ}) r.content_part in
    rw
      (
        r.decoded,
        check_codes_ok r.header r.no_appc_code r.no_sap_code,
        data_record,
        not_below (length bs) 80 r.long,
        sized,
        check_limits_ok d _ _ n k,
        decode_data_fragment_ok bs r.header r.long r.decoded data_record,
        r.informed,
        r.content_part,
        r.counted,
      )
      refl

match_pending_ok :
    (validates : Bool) (ids : Ids) (function : ℕ) (final : Bool) (bs content : List ℕ)
    (chunks : List (List ℕ)) (r : IsPart validates ids function final bs content)
    → match_pending (pending_of ids chunks) r.header r.info ≡ ok tt
unfolding match_pending
match_pending_ok validates ids function final bs content chunks r =
    rw
      (
        r.same_conversation,
        r.same_sequence,
        r.same_communication,
        r.same_connection,
        bytes_equal_refl ids.conversation_id,
        same_number ids.sequence_number,
        same_number ids.communication_index,
        same_number ids.connection_index,
      )
      refl

pending_first :
    (validates : Bool) (ids : Ids) (bs content : List ℕ)
    (r : IsPart validates ids func_sap_send false bs content)
    → new_pending r.header content r.info ≡ pending_of ids (content ∷ [])
pending_first validates ids bs content r = λ i. record {
  chunks = content ∷ [];
  conversation_id = r.same_conversation i;
  sequence_number = r.same_sequence i;
  byte_length = sym (ap (length {A = ℕ}) (append-nil content)) i;
  fragment_count = 1;
  communication_index = r.same_communication i;
  connection_index = r.same_connection i;
}

pending_next :
    (ids : Ids) (chunks : List (List ℕ)) (content : List ℕ)
    → extended (pending_of ids chunks) content ≡ pending_of ids (chunks ++ (content ∷ []))
pending_next ids chunks content = λ i. record {
  chunks = chunks ++ (content ∷ []);
  conversation_id = ids.conversation_id;
  sequence_number = ids.sequence_number;
  byte_length = sym (length-concat-snoc chunks content) i;
  fragment_count = sym (length-append chunks (content ∷ [])) i;
  communication_index = ids.communication_index;
  connection_index = ids.connection_index;
}

-- The first record leaves its data pending.
pub push_first :
    (ids : Ids) (bs content : List ℕ) (d : ConversationDecoder)
    (r : IsPart d.validates_info ids func_sap_send false bs content)
    → length content ≤ d.max_message_length
    → 1 ≤ d.max_fragments
    → push bs (holding d none) ≡ (ok [], holding d (some (pending_of ids (content ∷ []))))
unfolding push push_ordinary sap_send_on begin_message
push_first ids bs content d r n k =
    rw
      (
        push_record_ok ids func_sap_send false bs content (holding d none) r
            (rw r.has_function refl) (omega (arith, n)) (omega (arith, k)),
        r.has_function,
        check_limits_ok (holding d none) _ _ n k,
        r.has_flag,
      )
      (ap (λ p. (ok [], holding d (some p))) (pending_first d.validates_info ids bs content r))

-- What the next record leaves.
abbrev pub after_part : Ids → Bool → List (List ℕ) → Pushed
after_part ids true chunks = (assembled (pending_of ids chunks) ∷ [], none)
after_part ids false chunks = ([], some (pending_of ids chunks))

pub push_next :
    (ids : Ids) (final : Bool) (bs content : List ℕ) (chunks : List (List ℕ))
    (d : ConversationDecoder)
    → IsPart d.validates_info ids func_receive final bs content
    → length (concat chunks) + length content ≤ d.max_message_length
    → length chunks + 1 ≤ d.max_fragments
    → push bs (holding d (some (pending_of ids chunks)))
      ≡ settle
          (holding d (some (pending_of ids chunks)))
          (ok (after_part ids final (chunks ++ (content ∷ []))))
unfolding push push_ordinary receive_on continue_message match_pending
push_next ids final bs content chunks d r n k =
    let here : ConversationDecoder = holding d (some (pending_of ids chunks)) in
    rw
      (
        push_record_ok ids func_receive final bs content here r (rw r.has_function refl) n k,
        r.has_function,
        match_pending_ok d.validates_info ids func_receive final bs content chunks r,
        check_limits_ok here _ _ n k,
        r.has_flag,
      )
      (at final)
  where
    at :
        (final : Bool)
        → settle (holding d (some (pending_of ids chunks))) (
            ok (
              if final
              then (assembled (extended (pending_of ids chunks) content) ∷ [], none)
              else ([], some (extended (pending_of ids chunks) content))))
          ≡ settle
              (holding d (some (pending_of ids chunks)))
              (ok (after_part ids final (chunks ++ (content ∷ []))))
    at true = ap (λ p. (ok (assembled p ∷ []), holding d none)) (pending_next ids chunks content)
    at false = ap (λ p. (ok [], holding d (some p))) (pending_next ids chunks content)

-- ===== src/Appc/Conversation/Decoder.antt =====
-- conversation.go: the decoder that reassembles application messages from data records.
use open_rfc_go.Base.{
  concat, ℕ, ℤ, pos, ◌+◌, ◌-◌, Bool, true, false, not, ◌&&◌, ◌||◌, Option, none, some, List, [],
  ◌∷◌, ◌++◌, length, take, drop, ltb, ◌==◌, if◌then◌else◌, Result, ok, err, guard, ◌>>=◌, ◌>>◌,
}
use open_rfc_go.Base.Stateful.{Method}
use open_rfc_go.Appc.{
  Error, range, protocol, no_message, wrong_data_length, truncated_message, after_return_code,
  over_message_length, over_fragment_count, record_header_length, default_max_message_length,
  default_max_message_fragments, return_code_deallocated_normal, func_receive, func_sap_send,
  DataOperationInfo, decode_incoming_data_operation_info,
}
use open_rfc_go.Appc.Header.{Header, decode_header}
use open_rfc_go.Appc.Records.{or_default}
use open_rfc_go.Appc.Conversation.{DataFragment, is_data, decode_data_fragment}

pub record Message : Type 0 where
  pub content : List ℕ
  pub conversation_id : List ℕ
  pub sequence_number : ℕ
  pub fragment_count : ℕ
  pub communication_index : ℕ
  pub connection_index : ℕ

pub record PendingMessage : Type 0 where
  pub chunks : List (List ℕ)
  pub conversation_id : List ℕ
  pub sequence_number : ℕ
  pub byte_length : ℕ
  pub fragment_count : ℕ
  pub communication_index : ℕ
  pub connection_index : ℕ

-- A nil `pending` is `none`.
pub record ConversationDecoder : Type 0 where
  pub max_message_length : ℕ
  pub max_fragments : ℕ
  pub allow_initial_receive : Bool
  pub validates_info : Bool
  pub pending : Option PendingMessage

-- The limits in use, and the two flags.
unfoldable pub checked_decoder : ℤ → ℤ → Bool → Bool → Result Error ConversationDecoder
checked_decoder (pos m) (pos n) initial validates =
    if n == 0
    then err range
    else ok (record {
      max_message_length = m;
      max_fragments = n;
      allow_initial_receive = initial;
      validates_info = validates;
      pending = none;
    })
checked_decoder _ _ initial validates = err range

unfoldable pub new_conversation_decoder :
    Option ℤ → Option ℤ → Bool → Bool → Result Error ConversationDecoder
new_conversation_decoder max_message max_fragments initial validates =
    checked_decoder (or_default max_message (pos default_max_message_length))
      (or_default max_fragments (pos default_max_message_fragments)) initial validates

abbrev pub held_bytes : Option PendingMessage → ℕ
held_bytes none = 0
held_bytes (some p) = p.byte_length

abbrev pub held_fragments : Option PendingMessage → ℕ
held_fragments none = 0
held_fragments (some p) = p.fragment_count

unfoldable pub buffered_byte_length : ConversationDecoder → ℕ
buffered_byte_length d = held_bytes d.pending

unfoldable pub fragment_count : ConversationDecoder → ℕ
fragment_count d = held_fragments d.pending

unfoldable pub check_limits : ConversationDecoder → ℕ → ℕ → Result Error (Unit {0})
check_limits d byte_length count =
    if ltb d.max_message_length byte_length
    then err (over_message_length byte_length d.max_message_length)
    else if ltb d.max_fragments count
    then err (over_fragment_count count d.max_fragments)
    else ok tt

-- bytes.Equal
unfoldable pub bytes_equal : List ℕ → List ℕ → Bool
bytes_equal [] [] = true
bytes_equal (a ∷ as') (b ∷ bs) = a == b && bytes_equal as' bs
bytes_equal _ _ = false

unfoldable pub match_pending : PendingMessage → Header → DataOperationInfo → Result Error (Unit {0})
match_pending p h info = do
  guard (bytes_equal p.conversation_id h.conversation_id) protocol
  guard (p.sequence_number == h.sequence_number) protocol
  guard
      (p.communication_index == info.communication_index
        && p.connection_index == info.connection_index)
      protocol

abbrev pub single_message : Header → List ℕ → DataOperationInfo → Message
single_message h content info = record {
  content = content;
  conversation_id = h.conversation_id;
  sequence_number = h.sequence_number;
  fragment_count = 1;
  communication_index = info.communication_index;
  connection_index = info.connection_index;
}

abbrev pub new_pending : Header → List ℕ → DataOperationInfo → PendingMessage
new_pending h content info = record {
  chunks = content ∷ [];
  conversation_id = h.conversation_id;
  sequence_number = h.sequence_number;
  byte_length = length content;
  fragment_count = 1;
  communication_index = info.communication_index;
  connection_index = info.connection_index;
}

-- The pending message with one more chunk, and the message that a pending one becomes.
abbrev pub extended : PendingMessage → List ℕ → PendingMessage
extended p content = record p {
  chunks = p.chunks ++ (content ∷ []);
  byte_length = p.byte_length + length content;
  fragment_count = p.fragment_count + 1;
}

abbrev pub assembled : PendingMessage → Message
assembled p = record {
  content = concat p.chunks;
  conversation_id = p.conversation_id;
  sequence_number = p.sequence_number;
  fragment_count = p.fragment_count;
  communication_index = p.communication_index;
  connection_index = p.connection_index;
}

-- What a push that succeeds returns: the messages, and what is pending then.
abbrev pub Pushed : Type 0
Pushed = List Message × Option PendingMessage

-- The first record of a message.
unfoldable pub begin_message :
    ConversationDecoder → DataFragment → DataOperationInfo → Result Error Pushed
begin_message d f info = do
  check_limits d (length f.content) 1
  ok (
      if f.is_final
      then (single_message f.header f.content info ∷ [], none)
      else ([], some (new_pending f.header f.content info)))

-- One more record of the pending message, which is `last` or not.
unfoldable pub continue_message :
    ConversationDecoder
    → PendingMessage
    → DataFragment
    → DataOperationInfo
    → Bool
    → Result Error Pushed
continue_message d p f info last = do
  match_pending p f.header info
  check_limits d (p.byte_length + length f.content) (p.fragment_count + 1)
  ok (
      if last
      then (assembled (extended p f.content) ∷ [], none)
      else ([], some (extended p f.content)))

-- The record that ends the conversation.
unfoldable pub terminal_on :
    Option PendingMessage
    → ConversationDecoder
    → DataFragment
    → DataOperationInfo
    → Result Error Pushed
terminal_on none d f info = do
  guard (not (f.header.payload_info.function_code == func_receive) || d.allow_initial_receive)
      protocol
  check_limits d (length f.content) 1
  ok (single_message f.header f.content info ∷ [], none)
terminal_on (some p) d f info = do
  guard (f.header.payload_info.function_code == func_receive) protocol
  continue_message d p f info true

unfoldable pub push_terminal :
    ConversationDecoder → DataFragment → DataOperationInfo → Result Error Pushed
push_terminal d f info =
    guard (not (length f.content == 0)) no_message >> terminal_on d.pending d f info

-- The two cases of the `switch`.
unfoldable pub sap_send_on :
    Option PendingMessage
    → ConversationDecoder
    → DataFragment
    → DataOperationInfo
    → Result Error Pushed
sap_send_on (some p) d f info = err protocol
sap_send_on none d f info = begin_message d f info

unfoldable pub receive_on :
    Option PendingMessage
    → ConversationDecoder
    → DataFragment
    → DataOperationInfo
    → Result Error Pushed
receive_on (some p) d f info = continue_message d p f info f.is_final
receive_on none d f info = guard d.allow_initial_receive protocol >> begin_message d f info

unfoldable pub push_ordinary :
    ConversationDecoder → DataFragment → DataOperationInfo → Result Error Pushed
push_ordinary d f info =
    if f.header.payload_info.function_code == func_sap_send
    then sap_send_on d.pending d f info
    else receive_on d.pending d f info

-- The return codes that a record may have.
unfoldable pub check_codes : Bool → Header → Result Error (Unit {0})
check_codes true h =
    guard (h.appc_return_code == return_code_deallocated_normal && h.sap_return_code == 0) protocol
check_codes false h =
    if h.appc_return_code == return_code_deallocated_normal && h.sap_return_code == 0
    then err protocol
    else if not (h.appc_return_code == 0) || not (h.sap_return_code == 0)
    then err (after_return_code h.payload_info.function_code h.appc_return_code h.sap_return_code)
    else ok tt

-- A record that carries no data.
unfoldable pub control_on : Option PendingMessage → Bool → Result Error Pushed
control_on (some p) terminal = err protocol
control_on none true = err no_message
control_on none false = ok ([], none)

unfoldable pub push_control : Bool → ConversationDecoder → Result Error Pushed
push_control terminal d = control_on d.pending terminal

-- A record over budget is refused before its data is looked at.
unfoldable pub check_budget : ConversationDecoder → List ℕ → Result Error (Unit {0})
check_budget d payload =
    if ltb (length payload) record_header_length
    then ok tt
    else check_limits d (held_bytes d.pending + (length payload - record_header_length))
        (held_fragments d.pending + 1)

unfoldable pub push_fragment :
    Bool → ConversationDecoder → DataFragment → DataOperationInfo → Result Error Pushed
push_fragment true d f info = push_terminal d f info
push_fragment false d f info = push_ordinary d f info

unfoldable pub push_data : Bool → ConversationDecoder → List ℕ → Result Error Pushed
push_data terminal d payload = do
  check_budget d payload
  f ← decode_data_fragment payload
  info ← decode_incoming_data_operation_info (take 32 (drop 48 payload))
  guard (not d.validates_info || info.data_length == length f.content)
      (wrong_data_length info.data_length (length f.content))
  push_fragment terminal d f info

unfoldable pub push_record : Bool → ConversationDecoder → List ℕ → Result Error Pushed
push_record terminal d payload = do
  h ← decode_header payload
  check_codes terminal h
  if is_data h then push_data terminal d payload else push_control terminal d

-- An error leaves the decoder as it was.
abbrev pub settle :
    ConversationDecoder → Result Error Pushed → Result Error (List Message) × ConversationDecoder
settle d (err e) = (err e, d)
settle d (ok (ms, p)) = (ok ms, record d { pending = p })

unfoldable pub push : List ℕ → Method ConversationDecoder Error (List Message)
push payload d = settle d (push_record false d payload)

unfoldable pub push_terminal_deallocation : List ℕ → Method ConversationDecoder Error (List Message)
push_terminal_deallocation payload d = settle d (push_record true d payload)

unfoldable pub finish : ConversationDecoder → Result Error (Unit {0})
finish d = elim d.pending [
  | none ↦ ok tt
  | some p ↦ err (truncated_message p.fragment_count p.byte_length)
]

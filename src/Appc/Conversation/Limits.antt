-- ===== src/Appc/Conversation/Limits.antt =====
-- conversation.go: what is buffered and what is delivered stays within the limits.
use open_rfc_go.Base.{
  concat, length-concat-snoc, ℕ, ◌+◌, ◌≤◌, ◌≡◌, refl, Bool, true, false, not, ◌||◌, Option, none,
  some, List, [], ◌∷◌, length, length-append, take, drop, All, ◌==◌, if◌then◌else◌, Result, ok, err,
  guard, ◌>>=◌, ◌>>◌, arith,
}
use open_rfc_go.Appc.{
  wrong_data_length, protocol, func_receive, Error, DataOperationInfo,
  decode_incoming_data_operation_info,
}
use open_rfc_go.Appc.Header.{decode_header}
use open_rfc_go.Appc.Conversation.{DataFragment, is_data, decode_data_fragment}
use open_rfc_go.Appc.Conversation.Decoder.{
  Message, PendingMessage, ConversationDecoder, check_limits, match_pending, single_message,
  new_pending, assembled, extended, Pushed, begin_message, continue_message, terminal_on,
  sap_send_on, receive_on, control_on, push_fragment, push_terminal, push_ordinary, check_codes,
  push_control, check_budget, push_data, push_record,
}

-- The sums of a pending message are those of its chunks, and within the limits.
pub record IsPending (max_length max_count : ℕ) (p : PendingMessage) : Type 0 where
  pub bytes_counted : p.byte_length ≡ length (concat p.chunks)
  pub chunks_counted : p.fragment_count ≡ length p.chunks
  pub bytes_within : p.byte_length ≤ max_length
  pub chunks_within : p.fragment_count ≤ max_count

-- A message that is within the limits.
pub record IsWithin (max_length max_count : ℕ) (m : Message) : Type 0 where
  pub length_within : length m.content ≤ max_length
  pub count_within : m.fragment_count ≤ max_count

abbrev pub AllWithin : ConversationDecoder → List Message → Type 0
AllWithin d ms = All (IsWithin d.max_message_length d.max_fragments) ms

abbrev pub IsValidPending : ConversationDecoder → Option PendingMessage → Type 0
IsValidPending d none = Unit
IsValidPending d (some p) = IsPending d.max_message_length d.max_fragments p

-- What a push may return.
abbrev pub Keeps : ConversationDecoder → Result Error Pushed → Type 0
Keeps d (err e) = Unit
Keeps d (ok (ms, p)) = AllWithin d ms × IsValidPending d p

guarded :
    (d : ConversationDecoder) (b : Bool) (e : Error) (k : Result Error Pushed)
    → (b ≡ true → Keeps d k)
    → Keeps d (guard b e >> k)
guarded d true e k h = h refl
guarded d false e k h = tt

bound :
    {A : Type 0} (d : ConversationDecoder) (r : Result Error A) (k : A → Result Error Pushed)
    → ((a : A) → r ≡ ok a → Keeps d (k a))
    → Keeps d (r >>= k)
bound d (ok a) k h = h a refl
bound d (err e) k h = tt

within_limits :
    (d : ConversationDecoder) (n count : ℕ) (u : Unit {0})
    → check_limits d n count ≡ ok u
    → (n ≤ d.max_message_length) × (count ≤ d.max_fragments)
unfolding check_limits
within_limits d n count u h = ground arith

extended-IsPending :
    (d : ConversationDecoder) (p : PendingMessage) (c : List ℕ)
    → IsValidPending d (some p)
    → p.byte_length + length c ≤ d.max_message_length
    → p.fragment_count + 1 ≤ d.max_fragments
    → IsValidPending d (some (extended p c))
extended-IsPending d p c v n k = record {
  bytes_counted = omega (arith, v.bytes_counted, length-concat-snoc p.chunks c);
  chunks_counted = omega (arith, v.chunks_counted, length-append p.chunks (c ∷ []));
  bytes_within = n;
  chunks_within = k;
}

begin_message-Keeps :
    (d : ConversationDecoder) (f : DataFragment) (info : DataOperationInfo)
    → Keeps d (begin_message d f info)
unfolding begin_message
begin_message-Keeps d f info =
    bound d (check_limits d (length f.content) 1) _
      λ u h. let (n, k) = within_limits d (length f.content) 1 u h in at f.is_final n k
  where
    at :
        (last : Bool)
        → length f.content ≤ d.max_message_length
        → 1 ≤ d.max_fragments
        → Keeps d (
            ok (
              if last
              then (single_message f.header f.content info ∷ [], none)
              else ([], some (new_pending f.header f.content info))))
    at true n k = ((record { length_within = n; count_within = k }, tt), tt)
    at false n k = (
      tt,
      record {
        bytes_counted = omega (arith, length-append f.content []);
        chunks_counted = refl;
        bytes_within = n;
        chunks_within = k;
      },
    )

continue_message-Keeps :
    (d : ConversationDecoder) (p : PendingMessage) (f : DataFragment) (info : DataOperationInfo)
    (last : Bool)
    → IsValidPending d (some p)
    → Keeps d (continue_message d p f info last)
unfolding continue_message
continue_message-Keeps d p f info last v = bound d (match_pending p f.header info) _ λ u h.
    bound d (check_limits d (p.byte_length + length f.content) (p.fragment_count + 1)) _ λ u' h'.
      let (n, k) =
        within_limits d (p.byte_length + length f.content) (p.fragment_count + 1) u' h' in
      at last (extended-IsPending d p f.content v n k)
  where
    at :
        (last : Bool)
        → IsValidPending d (some (extended p f.content))
        → Keeps d (
            ok (
              if last
              then (assembled (extended p f.content) ∷ [], none)
              else ([], some (extended p f.content))))
    at true v' = (
      (
        record {
          length_within = omega (arith, v'.bytes_counted, v'.bytes_within);
          count_within = v'.chunks_within;
        },
        tt,
      ),
      tt,
    )
    at false v' = (tt, v')

terminal_on-Keeps :
    (d : ConversationDecoder) (p : Option PendingMessage) (f : DataFragment)
    (info : DataOperationInfo)
    → IsValidPending d p
    → Keeps d (terminal_on p d f info)
unfolding terminal_on
terminal_on-Keeps d none f info v =
    guarded d (not (f.header.payload_info.function_code == func_receive) || d.allow_initial_receive)
      protocol
      (check_limits d (length f.content) 1
        >> ok (single_message f.header f.content info ∷ [], none))
      λ _.
        bound d (check_limits d (length f.content) 1)
          (λ _. ok (single_message f.header f.content info ∷ [], none))
          λ u h.
            let (n, k) = within_limits d (length f.content) 1 u h in
            ((record { length_within = n; count_within = k }, tt), tt)
terminal_on-Keeps d (some p) f info v =
    guarded d _ _ _ λ _. continue_message-Keeps d p f info true v

receive_on-Keeps :
    (d : ConversationDecoder) (p : Option PendingMessage) (f : DataFragment)
    (info : DataOperationInfo)
    → IsValidPending d p
    → Keeps d (receive_on p d f info)
unfolding receive_on
receive_on-Keeps d none f info v = guarded d _ _ _ λ _. begin_message-Keeps d f info
receive_on-Keeps d (some p) f info v = continue_message-Keeps d p f info f.is_final v

sap_send_on-Keeps :
    (d : ConversationDecoder) (p : Option PendingMessage) (f : DataFragment)
    (info : DataOperationInfo)
    → Keeps d (sap_send_on p d f info)
unfolding sap_send_on
sap_send_on-Keeps d none f info = begin_message-Keeps d f info
sap_send_on-Keeps d (some p) f info = tt

either_way :
    (d : ConversationDecoder) (b : Bool) (r s : Result Error Pushed)
    → Keeps d r
    → Keeps d s
    → Keeps d (if b then r else s)
either_way d true r s h k = h
either_way d false r s h k = k

push_fragment-Keeps :
    (d : ConversationDecoder) (terminal : Bool) (f : DataFragment) (info : DataOperationInfo)
    → IsValidPending d d.pending
    → Keeps d (push_fragment terminal d f info)
unfolding push_fragment push_terminal push_ordinary
push_fragment-Keeps d true f info v = guarded d _ _ _ λ _. terminal_on-Keeps d d.pending f info v
push_fragment-Keeps d false f info v =
    either_way d _ _ _ (sap_send_on-Keeps d d.pending f info)
      (receive_on-Keeps d d.pending f info v)

push_control-Keeps : (d : ConversationDecoder) (terminal : Bool) → Keeps d (push_control terminal d)
unfolding push_control control_on
push_control-Keeps d terminal = at d.pending terminal
  where
    at : (p : Option PendingMessage) (terminal : Bool) → Keeps d (control_on p terminal)
    at (some p) terminal = tt
    at none true = tt
    at none false = (tt, tt)

checked_fragment-Keeps :
    (d : ConversationDecoder) (terminal : Bool) (f : DataFragment)
    (info : Result Error DataOperationInfo)
    → IsValidPending d d.pending
    → Keeps d (
        info >>= λ i.
        guard
          (not d.validates_info || i.data_length == length f.content)
          (wrong_data_length i.data_length (length f.content))
        >> push_fragment terminal d f i)
checked_fragment-Keeps d terminal f (err e) v = tt
checked_fragment-Keeps d terminal f (ok i) v =
    guarded d (not d.validates_info || i.data_length == length f.content)
      (wrong_data_length i.data_length (length f.content)) (push_fragment terminal d f i)
      λ _. push_fragment-Keeps d terminal f i v

pub push_record-Keeps :
    (d : ConversationDecoder) (terminal : Bool) (payload : List ℕ)
    → IsValidPending d d.pending
    → Keeps d (push_record terminal d payload)
unfolding push_record push_data
push_record-Keeps d terminal payload v = bound d (decode_header payload) _ λ h _.
    bound d (check_codes terminal h) _ λ _ _.
      either_way d (is_data h) _ _
        (bound d (check_budget d payload) _ λ _ _. bound d (decode_data_fragment payload) _ λ f _.
          checked_fragment-Keeps d terminal f
            (decode_incoming_data_operation_info (take 32 (drop 48 payload))) v)
        (push_control-Keeps d terminal)

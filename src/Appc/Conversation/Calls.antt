-- ===== src/Appc/Conversation/Calls.antt =====
-- conversation.go: a decoder from its construction through any calls.
use open_rfc_go.Base.{
  sym, subst, ℤ, ℕ, ◌≤◌, ◌≡◌, refl, Bool, true, false, Option, none, some, List, [], ◌∷◌, ◌++◌,
  Result, ok, err, arith,
}
use open_rfc_go.Base.Stateful.{Method}
use open_rfc_go.Appc.{Error}
use open_rfc_go.Appc.Conversation.Decoder.{
  held_bytes, held_fragments, buffered_byte_length, fragment_count, Message, PendingMessage,
  ConversationDecoder, Pushed, settle, push, push_terminal_deallocation, checked_decoder,
  new_conversation_decoder,
}
use open_rfc_go.Appc.Conversation.Limits.{AllWithin, IsValidPending, Keeps, push_record-Keeps}

-- A call of the decoder: a record, which ends the conversation or not.
pub data Call : Type 0 where
  ordinary terminal : List ℕ → Call

abbrev pub call : Call → Method ConversationDecoder Error (List Message)
call (ordinary payload) = push payload
call (terminal payload) = push_terminal_deallocation payload

-- The messages that the calls deliver, and the decoder after them; an error does not end the run.
abbrev pub delivered : Result Error (List Message) → List Message
delivered (ok ms) = ms
delivered (err e) = []

abbrev pub calls : List Call → ConversationDecoder → List Message × ConversationDecoder
calls [] d = ([], d)
calls (c ∷ cs) d =
    let after = call c d in let rest = calls cs after.1 in (delivered after.0 ++ rest.0, rest.1)

settle-Keeps :
    (d : ConversationDecoder) (r : Result Error Pushed)
    → IsValidPending d d.pending
    → Keeps d r
    → AllWithin d (delivered (settle d r).0)
      × IsValidPending d (settle d r).1.pending
      × ((settle d r).1 ≡ record d { pending = (settle d r).1.pending })
settle-Keeps d (err e) v k = (tt, v, refl)
settle-Keeps d (ok (ms, p)) v (within, v') = (within, v', refl)

call-Keeps :
    (d : ConversationDecoder) (c : Call)
    → IsValidPending d d.pending
    → AllWithin d (delivered (call c d).0)
      × IsValidPending d (call c d).1.pending
      × ((call c d).1 ≡ record d { pending = (call c d).1.pending })
unfolding push push_terminal_deallocation
call-Keeps d (ordinary payload) v = settle-Keeps d _ v (push_record-Keeps d false payload v)
call-Keeps d (terminal payload) v = settle-Keeps d _ v (push_record-Keeps d true payload v)

AllWithin-++ :
    (d : ConversationDecoder) (ms ns : List Message)
    → AllWithin d ms
    → AllWithin d ns
    → AllWithin d (ms ++ ns)
AllWithin-++ d [] ns h k = k
AllWithin-++ d (m ∷ ms) ns (h, hs) k = (h, AllWithin-++ d ms ns hs k)

calls-Keeps :
    (cs : List Call) (d : ConversationDecoder)
    → IsValidPending d d.pending
    → AllWithin d (calls cs d).0 × IsValidPending d (calls cs d).1.pending
calls-Keeps [] d v = (tt, v)
calls-Keeps (c ∷ cs) d v =
    let (within, v', same) = call-Keeps d c v in
    let (rest, last) =
      subst (λ e. AllWithin d (calls cs e).0 × IsValidPending d (calls cs e).1.pending) (sym same)
        (calls-Keeps cs (record d { pending = (call c d).1.pending }) v') in
    (AllWithin-++ d (delivered (call c d).0) (calls cs (call c d).1).0 within rest, last)

held-within :
    (d : ConversationDecoder) (p : Option PendingMessage)
    → IsValidPending d p
    → (held_bytes p ≤ d.max_message_length) × (held_fragments p ≤ d.max_fragments)
held-within d none v = (omega arith, omega arith)
held-within d (some p) v = (v.bytes_within, v.chunks_within)

started :
    (m n : ℤ) (initial validates : Bool) (d : ConversationDecoder)
    → checked_decoder m n initial validates ≡ ok d
    → d.pending ≡ none
unfolding checked_decoder
started m n initial validates d h = ground arith

-- whatever records a new decoder is given, and whichever it refuses: each message that it delivers has
-- at most the configured length and number of fragments, and so has what it buffers.
pub calls-IsWithin :
    (max_message max_fragments : Option ℤ) (initial validates : Bool) (d : ConversationDecoder)
    (cs : List Call)
    → new_conversation_decoder max_message max_fragments initial validates ≡ ok d
    → AllWithin d (calls cs d).0
      × (buffered_byte_length (calls cs d).1 ≤ d.max_message_length)
      × (fragment_count (calls cs d).1 ≤ d.max_fragments)
unfolding new_conversation_decoder buffered_byte_length fragment_count
calls-IsWithin max_message max_fragments initial validates d cs h =
    let fresh : d.pending ≡ none = started _ _ initial validates d h in
    let (within, v) = calls-Keeps cs d (subst (IsValidPending d) (sym fresh) tt) in
    let (bytes, chunks) = held-within d (calls cs d).1.pending v in (within, bytes, chunks)

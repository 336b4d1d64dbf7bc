-- ===== src/Appc/Setup/Acts.antt =====
-- conversation.go: sequences of sends, replies and completions that succeed.
use open_rfc_go.Base.{
  ℕ, ◌≡◌, refl, ◌⊎◌, inl, inr, subst, ◌≢◌, Bool, true, false, Option, none, some, List, [], ◌∷◌,
  length, ltb, if◌then◌else◌, arith, Result, ok, err,
}
use open_rfc_go.Appc.{
  Error, wrong_length, func_initialize, func_allocate, func_set_tp_name, func_set_partner_lu_name,
}
use open_rfc_go.Appc.Header.{Header, decode_header}
use open_rfc_go.Appc.Setup.{
  ClientSetupState, send_continuation, send_barrier_pending, response_pending, ready, closed,
  ReceiveDisposition, response_complete, sent, received_header, received, is_response_pending,
  allowed_to_receive, after_received,
}
use open_rfc_go.Appc.Setup.Protocol.{Sends, sent-Sends}

-- A reply with the function of the header, and no error code in it.
abbrev pub Replied : ℕ → List ℕ → Type 0
Replied f payload =
    (h : Header) × (decode_header payload ≡ ok h)
    × (h.payload_info.function_code ≡ f)
    × (h.appc_return_code ≡ 0)
    × (h.sap_return_code ≡ 0)

pub data Act : Type 0 where
  send : ℕ → Bool → Act
  reply : List ℕ → Act
  complete : Act

abbrev pub after_ok {ℓ} : {A : Type ℓ} → Result Error A × ClientSetupState → Option ClientSetupState
after_ok (ok a, s) = some s
after_ok (err e, s) = none

-- The state behind an act that succeeds.
unfoldable pub act : Act → ClientSetupState → Option ClientSetupState
act (send f final) s = after_ok (sent f final s)
act (reply payload) s = after_ok (received payload s)
act complete s = after_ok (response_complete s)

unfoldable pub run : List Act → ClientSetupState → Option ClientSetupState
run [] s = some s
run (a ∷ acts) s = elim (act a s) [ none ↦ none | some s' ↦ run acts s' ]

-- The handshake at the front of the acts, from its several stages on.
abbrev pub AwaitsAllocate : List Act → Type 0
AwaitsAllocate (reply p ∷ acts) = Replied func_allocate p
AwaitsAllocate _ = ⊥

abbrev pub HasPartner : List Act → Type 0
HasPartner (send f final ∷ acts) = (f ≡ func_allocate) × AwaitsAllocate acts
HasPartner _ = ⊥

abbrev pub HasName : List Act → Type 0
HasName (send f final ∷ acts) = (f ≡ func_set_partner_lu_name) × HasPartner acts
HasName _ = ⊥

abbrev pub IsInitialized : List Act → Type 0
IsInitialized (send f final ∷ acts) =
    ((f ≡ func_set_tp_name) × HasName acts) ⊎ ((f ≡ func_set_partner_lu_name) × HasPartner acts)
IsInitialized _ = ⊥

abbrev pub AwaitsInitialize : List Act → Type 0
AwaitsInitialize (reply p ∷ acts) = Replied func_initialize p × IsInitialized acts
AwaitsInitialize _ = ⊥

-- F_INITIALIZE and its reply, F_SET_TP_NAME or nothing, F_SET_PARTNER_LU_NAME, F_ALLOCATE and its
-- reply.
abbrev pub Handshake : List Act → Type 0
Handshake (send f final ∷ acts) = (f ≡ func_initialize) × AwaitsInitialize acts
Handshake _ = ⊥

-- States behind the handshake; an act that succeeds closes the conversation only from these.
abbrev pub IsEstablished : ClientSetupState → Type 0
IsEstablished ready = Unit
IsEstablished send_continuation = Unit
IsEstablished send_barrier_pending = Unit
IsEstablished response_pending = Unit
IsEstablished closed = Unit
IsEstablished _ = ⊥

received_header-Replied :
    (s : ClientSetupState) (f : ℕ) (payload : List ℕ) (h : Header) {s' : ClientSetupState}
    → ((g : ℕ) → allowed_to_receive s g ≡ true → g ≡ f)
    → is_response_pending s ≡ false
    → decode_header payload ≡ ok h
    → after_ok (received_header h s) ≡ some s'
    → Replied f payload × (s' ≡ after_received s)
unfolding received_header
received_header-Replied s f payload h only early d e =
    let g : ℕ = h.payload_info.function_code in
    let allowed : allowed_to_receive s g ≡ true = ground arith in
    ((h, d, only g allowed, ground arith, ground arith), ground (arith, allowed))

pub act-Replied :
    (s : ClientSetupState) (f : ℕ) (payload : List ℕ) (s' : ClientSetupState)
    → ((g : ℕ) → allowed_to_receive s g ≡ true → g ≡ f)
    → is_response_pending s ≡ false
    → act (reply payload) s ≡ some s'
    → Replied f payload × (s' ≡ after_received s)
unfolding act received
act-Replied s f payload s' only early e =
    at (ltb (length payload) 80) (decode_header payload) refl e
  where
    at :
        (short : Bool) (r : Result Error Header)
        → decode_header payload ≡ r
        → after_ok {A = ReceiveDisposition} (
            if short
            then (err (wrong_length (length payload)), closed)
            else elim r [ err e ↦ (err e, closed) | ok h ↦ received_header h s ])
          ≡ some s'
        → Replied f payload × (s' ≡ after_received s)
    at true r d e = absurd (ground arith)
    at false (err x) d e = absurd (ground arith)
    at false (ok h) d e = received_header-Replied s f payload h only early d e

-- One act that succeeds, and the acts behind it.
pub run_cons :
    (a : Act) (acts : List Act) (s t : ClientSetupState)
    → run (a ∷ acts) s ≡ some t
    → (s' : ClientSetupState) × (act a s ≡ some s') × (run acts s' ≡ some t)
unfolding run
run_cons a acts s t e = at (act a s) refl e
  where
    at :
        (o : Option ClientSetupState)
        → act a s ≡ o
        → (elim o [ none ↦ none | some s' ↦ run acts s' ]) ≡ some t
        → (s' : ClientSetupState) × (act a s ≡ some s') × (run acts s' ≡ some t)
    at none d e = absurd (ground arith)
    at (some s') d e = (s', d, e)

pub send_admitted :
    (s s' : ClientSetupState) (f : ℕ) (final : Bool)
    → act (send f final) s ≡ some s'
    → Sends s f final s'
unfolding act
send_admitted s s' f final e = elim (sent-Sends s f final) [
  | inl (t, a, done) ↦ let same : t ≡ s' = ground arith in subst (Sends s f final) same a
  | inr (n, refused) ↦ absurd (ground arith)
]

-- Where no function is allowed, no reply is accepted.
pub never_replied :
    (s : ClientSetupState) (payload : List ℕ)
    → ((g : ℕ) → allowed_to_receive s g ≡ false)
    → is_response_pending s ≡ false
    → {s' : ClientSetupState} → act (reply payload) s ≢ some s'
unfolding act received received_header
never_replied s payload none_allowed early e =
    at (ltb (length payload) 80) (decode_header payload) refl e
  where
    at :
        {s' : ClientSetupState} (short : Bool) (r : Result Error Header)
        → decode_header payload ≡ r
        → after_ok {A = ReceiveDisposition} (
            if short
            then (err (wrong_length (length payload)), closed)
            else elim r [ err e ↦ (err e, closed) | ok h ↦ received_header h s ])
          ≡ some s'
        → ⊥
    at true r d e = ground arith
    at false (err x) d e = ground arith
    at false (ok h) d e = ground (arith, none_allowed h.payload_info.function_code)

-- An error in a reply closes the conversation.
pub received_refuses :
    (payload : List ℕ) (s : ClientSetupState) {e : Error}
    → (received payload s).0 ≡ err e
    → (received payload s).1 ≡ closed
unfolding received received_header
received_refuses payload s h = ground arith

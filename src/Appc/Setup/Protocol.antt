-- ===== src/Appc/Setup/Protocol.antt =====
-- conversation.go: what the setup state machine admits, as a protocol.
use open_rfc_go.Base.{ℕ, ◌≡◌, refl, ◌⊎◌, inl, inr, Bool, true, false, arith, ℕ_discrete, ok, err}
use open_rfc_go.Appc.{
  state, func_initialize, func_allocate, func_send_data, func_async_send_data, func_receive,
  func_deallocate, func_set_tp_name, func_set_partner_lu_name, func_sap_send,
}
use open_rfc_go.Appc.Setup.{
  ClientSetupState, new, initialize_pending, initialized, tp_set, partner_set, allocate_pending,
  send_continuation, send_barrier_pending, response_pending, ready, closed, sent,
}

-- The admitted conversation, one constructor for each record that moves it on: a setup handshake,
-- then requests, each in one record or streamed with barriers, each answered before the next.
pub data Sends : ClientSetupState → ℕ → Bool → ClientSetupState → Type 0 where
  opens : {f : ℕ} {final : Bool} → f ≡ func_initialize → Sends new f final initialize_pending
  names : {f : ℕ} {final : Bool} → f ≡ func_set_tp_name → Sends initialized f final tp_set
  partners :
      {f : ℕ} {final : Bool} → f ≡ func_set_partner_lu_name → Sends initialized f final partner_set
  then_partners :
      {f : ℕ} {final : Bool} → f ≡ func_set_partner_lu_name → Sends tp_set f final partner_set
  allocates :
      {f : ℕ} {final : Bool} → f ≡ func_allocate → Sends partner_set f final allocate_pending
  asks :
      {f : ℕ} {final : Bool}
      → f ≡ func_sap_send
      → final ≡ true
      → Sends ready f final response_pending
  streams :
      {f : ℕ} {final : Bool}
      → f ≡ func_async_send_data
      → final ≡ false
      → Sends ready f final send_continuation
  streams_on :
      {f : ℕ} {final : Bool}
      → f ≡ func_async_send_data
      → final ≡ false
      → Sends send_continuation f final send_continuation
  syncs :
      {f : ℕ} {final : Bool}
      → f ≡ func_send_data
      → final ≡ false
      → Sends send_continuation f final send_barrier_pending
  ends :
      {f : ℕ} {final : Bool}
      → f ≡ func_receive
      → final ≡ true
      → Sends send_continuation f final response_pending
  leaves : {f : ℕ} {final : Bool} → f ≡ func_deallocate → Sends ready f final closed

sent_admitted :
    (s s' : ClientSetupState) (f : ℕ) (final : Bool)
    → Sends s f final s'
    → sent f final s ≡ (ok tt, s')
unfolding sent
sent_admitted s s' f final (opens e) = ground arith
sent_admitted s s' f final (names e) = ground arith
sent_admitted s s' f final (partners e) = ground arith
sent_admitted s s' f final (then_partners e) = ground arith
sent_admitted s s' f final (Sends.allocates e) = ground arith
sent_admitted s s' f final (asks e e') = ground arith
sent_admitted s s' f final (streams e e') = ground arith
sent_admitted s s' f final (streams_on e e') = ground arith
sent_admitted s s' f final (syncs e e') = ground arith
sent_admitted s s' f final (ends e e') = ground arith
sent_admitted s s' f final (leaves e) = ground arith

some_send :
    (s : ClientSetupState) (f : ℕ) (final : Bool)
    → ((s' : ClientSetupState) × Sends s f final s') ⊎ (sent f final s ≡ (err state, s))
unfolding sent
some_send new f final = elim (ℕ_discrete f func_initialize) [
  | yes e ↦ inl (initialize_pending, opens e)
  | no n ↦ inr (ground arith)
]
some_send initialized f final = elim (ℕ_discrete f func_set_tp_name) [
  | yes e ↦ inl (tp_set, names e)
  | no n ↦ elim (ℕ_discrete f func_set_partner_lu_name) [
    | yes e ↦ inl (partner_set, partners e)
    | no n' ↦ inr (ground arith)
  ]
]
some_send tp_set f final = elim (ℕ_discrete f func_set_partner_lu_name) [
  | yes e ↦ inl (partner_set, then_partners e)
  | no n ↦ inr (ground arith)
]
some_send partner_set f final = elim (ℕ_discrete f func_allocate) [
  | yes e ↦ inl (allocate_pending, Sends.allocates e)
  | no n ↦ inr (ground arith)
]
some_send ready f true = elim (ℕ_discrete f func_sap_send) [
  | yes e ↦ inl (response_pending, asks e refl)
  | no n ↦ elim (ℕ_discrete f func_deallocate) [
    | yes e ↦ inl (closed, leaves e)
    | no n' ↦ inr (ground arith)
  ]
]
some_send ready f false = elim (ℕ_discrete f func_async_send_data) [
  | yes e ↦ inl (send_continuation, streams e refl)
  | no n ↦ elim (ℕ_discrete f func_deallocate) [
    | yes e ↦ inl (closed, leaves e)
    | no n' ↦ inr (ground arith)
  ]
]
some_send send_continuation f true = elim (ℕ_discrete f func_receive) [
  | yes e ↦ inl (response_pending, ends e refl)
  | no n ↦ inr (ground arith)
]
some_send send_continuation f false = elim (ℕ_discrete f func_async_send_data) [
  | yes e ↦ inl (send_continuation, streams_on e refl)
  | no n ↦ elim (ℕ_discrete f func_send_data) [
    | yes e ↦ inl (send_barrier_pending, syncs e refl)
    | no n' ↦ inr (ground arith)
  ]
]
some_send initialize_pending f final = inr (ground arith)
some_send allocate_pending f final = inr (ground arith)
some_send send_barrier_pending f final = inr (ground arith)
some_send response_pending f final = inr (ground arith)
some_send closed f final = inr (ground arith)

-- A record may be sent exactly if the protocol admits it; then the state is the protocol's next one,
-- and otherwise the state stays and the error is ErrState.
pub sent-Sends :
    (s : ClientSetupState) (f : ℕ) (final : Bool)
    → ((s' : ClientSetupState) × Sends s f final s' × (sent f final s ≡ (ok tt, s')))
      ⊎ (((s' : ClientSetupState) → ¬ Sends s f final s') × (sent f final s ≡ (err state, s)))
sent-Sends s f final = elim (some_send s f final) [
  | inl (s', a) ↦ inl (s', a, sent_admitted s s' f final a)
  | inr refused ↦ inr (
    λ s' a.
        let e : sent f final s ≡ (ok tt, s') = sent_admitted s s' f final a in
        ground (arith, refused),
    refused,
  )
]

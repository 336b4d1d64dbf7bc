-- ===== src/Appc/Setup/Handshake.antt =====
-- conversation.go: the handshake that every conversation begins with.
use open_rfc_go.Base.{◌≡◌, refl, ◌⊎◌, inl, inr, subst, some, List, [], ◌∷◌, arith}
use open_rfc_go.Appc.{func_initialize, func_allocate, func_set_tp_name, func_set_partner_lu_name}
use open_rfc_go.Appc.Setup.{
  ClientSetupState, new, initialize_pending, initialized, tp_set, partner_set, allocate_pending,
  response_complete, sent, received,
}
use open_rfc_go.Appc.Setup.Protocol.{opens, names, partners, then_partners, Sends}
use open_rfc_go.Appc.Setup.Acts.{
  Act, send, reply, complete, act, run, AwaitsAllocate, HasPartner, HasName, IsInitialized,
  AwaitsInitialize, Handshake, IsEstablished, act-Replied, run_cons, send_admitted, never_replied,
}

from_allocate_pending :
    (acts : List Act) (t : ClientSetupState)
    → run acts allocate_pending ≡ some t
    → IsEstablished t
    → AwaitsAllocate acts
unfolding run act sent response_complete
from_allocate_pending [] t e k = ground arith
from_allocate_pending (send f final ∷ acts) t e k = ground arith
from_allocate_pending (complete ∷ acts) t e k = ground arith
from_allocate_pending (reply p ∷ acts) t e k =
    let (s', a, r) = run_cons (reply p) acts allocate_pending t e in
    (act-Replied allocate_pending func_allocate p s' (λ g h. ground arith) refl a).0

from_partner_set :
    (acts : List Act) (t : ClientSetupState)
    → run acts partner_set ≡ some t
    → IsEstablished t
    → HasPartner acts
unfolding run act sent response_complete received
from_partner_set [] t e k = ground arith
from_partner_set (complete ∷ acts) t e k = ground arith
from_partner_set (reply p ∷ acts) t e k =
    let (s', a, r) = run_cons (reply p) acts partner_set t e in
    absurd (never_replied partner_set p (λ g. refl) refl a)
from_partner_set (send f final ∷ acts) t e k =
    let (s', a, r) = run_cons (send f final) acts partner_set t e in
    at s' (send_admitted partner_set s' f final a) r
  where
    at :
        (s' : ClientSetupState)
        → Sends partner_set f final s'
        → run acts s' ≡ some t
        → (f ≡ func_allocate) × AwaitsAllocate acts
    at _ (Sends.allocates e) r = (e, from_allocate_pending acts t r k)

from_tp_set :
    (acts : List Act) (t : ClientSetupState)
    → run acts tp_set ≡ some t
    → IsEstablished t
    → HasName acts
unfolding run act sent response_complete received
from_tp_set [] t e k = ground arith
from_tp_set (complete ∷ acts) t e k = ground arith
from_tp_set (reply p ∷ acts) t e k =
    let (s', a, r) = run_cons (reply p) acts tp_set t e in
    absurd (never_replied tp_set p (λ g. refl) refl a)
from_tp_set (send f final ∷ acts) t e k =
    let (s', a, r) = run_cons (send f final) acts tp_set t e in
    at s' (send_admitted tp_set s' f final a) r
  where
    at :
        (s' : ClientSetupState)
        → Sends tp_set f final s'
        → run acts s' ≡ some t
        → (f ≡ func_set_partner_lu_name) × HasPartner acts
    at _ (then_partners e) r = (e, from_partner_set acts t r k)

from_initialized :
    (acts : List Act) (t : ClientSetupState)
    → run acts initialized ≡ some t
    → IsEstablished t
    → IsInitialized acts
unfolding run act sent response_complete received
from_initialized [] t e k = ground arith
from_initialized (complete ∷ acts) t e k = ground arith
from_initialized (reply p ∷ acts) t e k =
    let (s', a, r) = run_cons (reply p) acts initialized t e in
    absurd (never_replied initialized p (λ g. refl) refl a)
from_initialized (send f final ∷ acts) t e k =
    let (s', a, r) = run_cons (send f final) acts initialized t e in
    at s' (send_admitted initialized s' f final a) r
  where
    at :
        (s' : ClientSetupState)
        → Sends initialized f final s'
        → run acts s' ≡ some t
        → ((f ≡ func_set_tp_name) × HasName acts)
          ⊎ ((f ≡ func_set_partner_lu_name) × HasPartner acts)
    at _ (names e) r = inl (e, from_tp_set acts t r k)
    at _ (partners e) r = inr (e, from_partner_set acts t r k)

from_initialize_pending :
    (acts : List Act) (t : ClientSetupState)
    → run acts initialize_pending ≡ some t
    → IsEstablished t
    → AwaitsInitialize acts
unfolding run act sent response_complete
from_initialize_pending [] t e k = ground arith
from_initialize_pending (complete ∷ acts) t e k = ground arith
from_initialize_pending (send f final ∷ acts) t e k = ground arith
from_initialize_pending (reply p ∷ acts) t e k =
    let (s', a, r) = run_cons (reply p) acts initialize_pending t e in
    let (replied, next) =
      act-Replied initialize_pending func_initialize p s' (λ g h. ground arith) refl a in
    (replied, from_initialized acts t (subst (λ s. run acts s ≡ some t) next r) k)

-- A conversation that has come to `ready`, or beyond, by sends, replies and completions that all
-- succeed began with the handshake: F_INITIALIZE and its reply without an error code, a TP name or
-- none, the partner, and F_ALLOCATE and its reply.
pub run-Handshake :
    (acts : List Act) (t : ClientSetupState)
    → run acts new ≡ some t
    → IsEstablished t
    → Handshake acts
unfolding run act sent response_complete received
run-Handshake [] t e k = ground arith
run-Handshake (complete ∷ acts) t e k = ground arith
run-Handshake (reply p ∷ acts) t e k =
    let (s', a, r) = run_cons (reply p) acts new t e in
    absurd (never_replied new p (λ g. refl) refl a)
run-Handshake (send f final ∷ acts) t e k =
    let (s', a, r) = run_cons (send f final) acts new t e in
    at s' (send_admitted new s' f final a) r
  where
    at :
        (s' : ClientSetupState)
        → Sends new f final s'
        → run acts s' ≡ some t
        → (f ≡ func_initialize) × AwaitsInitialize acts
    at _ (opens e) r = (e, from_initialize_pending acts t r k)

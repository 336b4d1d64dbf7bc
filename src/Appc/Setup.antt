-- ===== src/Appc/Setup.antt =====
-- conversation.go: the client's setup state machine.
use open_rfc_go.Base.{
  ℕ, ◌≡◌, Bool, true, false, not, ◌&&◌, ◌||◌, Option, none, some, List, [], ◌∷◌, length, ltb, ◌==◌,
  if◌then◌else◌, Result, ok, err,
}
use open_rfc_go.Appc.{
  Error, state, wrong_length, peer_return_code, record_header_length,
  return_code_deallocated_normal, func_initialize, func_allocate, func_send_data,
  func_async_send_data, func_receive, func_deallocate, func_set_tp_name, func_set_partner_lu_name,
  func_sap_send,
}
use open_rfc_go.Appc.Header.{Header, decode_header}
pub mod Protocol
pub mod Acts
pub mod Handshake
pub mod Examples

pub data ClientSetupState : Type 0 where
  new initialize_pending initialized tp_set partner_set allocate_pending send_continuation :
      ClientSetupState
  send_barrier_pending response_pending ready closed : ClientSetupState

pub data ReceiveDisposition : Type 0 where
  accepted normal_deallocation : ReceiveDisposition

unfoldable pub response_complete : ClientSetupState → Result Error (Unit {0}) × ClientSetupState
response_complete response_pending = (ok tt, ready)
response_complete _ = (err state, closed)

-- The table of `allowed`.
abbrev pub allowed_to_send : ClientSetupState → ℕ → Bool
allowed_to_send new f = f == func_initialize
allowed_to_send initialized f = f == func_set_tp_name || f == func_set_partner_lu_name
allowed_to_send tp_set f = f == func_set_partner_lu_name
allowed_to_send partner_set f = f == func_allocate
allowed_to_send ready f = f == func_sap_send || f == func_async_send_data || f == func_deallocate
allowed_to_send send_continuation f =
    f == func_async_send_data || f == func_send_data || f == func_receive
allowed_to_send _ f = false

abbrev pub is_send_continuation : ClientSetupState → Bool
is_send_continuation send_continuation = true
is_send_continuation _ = false

-- The checks before the table: the record must be final, or must not be.
unfoldable pub wrong_finality : ℕ → Bool → ClientSetupState → Bool
wrong_finality f final s =
    (f == func_sap_send && not final)
    || (f == func_async_send_data && final)
    || (f == func_send_data && final)
    || (f == func_receive && is_send_continuation s && not final)

-- The `switch` of Sent.
unfoldable pub after_sent : ℕ → Bool → ClientSetupState → ClientSetupState
after_sent f final s =
    if f == func_initialize
    then initialize_pending
    else if f == func_set_tp_name
    then tp_set
    else if f == func_set_partner_lu_name
    then partner_set
    else if f == func_allocate
    then allocate_pending
    else if f == func_async_send_data
    then send_continuation
    else if f == func_sap_send
    then response_pending
    else if f == func_send_data
    then send_barrier_pending
    else if f == func_receive
    then (if final then response_pending else s)
    else if f == func_deallocate
    then closed
    else s

unfoldable pub sent : ℕ → Bool → ClientSetupState → Result Error (Unit {0}) × ClientSetupState
unfolding wrong_finality after_sent
sent f final s =
    if wrong_finality f final s
    then (err state, s)
    else if allowed_to_send s f
    then (ok tt, after_sent f final s)
    else (err state, s)

abbrev pub allowed_to_receive : ClientSetupState → ℕ → Bool
allowed_to_receive initialize_pending f = f == func_initialize
allowed_to_receive allocate_pending f = f == func_allocate
allowed_to_receive send_barrier_pending f = f == func_send_data
allowed_to_receive response_pending f = f == func_sap_send || f == func_receive
allowed_to_receive _ f = false

-- The `switch` of Received.
abbrev pub after_received : ClientSetupState → ClientSetupState
after_received initialize_pending = initialized
after_received allocate_pending = ready
after_received send_barrier_pending = send_continuation
after_received s = s

abbrev pub is_response_pending : ClientSetupState → Bool
is_response_pending response_pending = true
is_response_pending _ = false

unfoldable pub is_normal_deallocation : Header → ClientSetupState → Bool
is_normal_deallocation h s =
    h.appc_return_code == return_code_deallocated_normal
    && h.sap_return_code == 0
    && is_response_pending s
    && (h.payload_info.function_code == func_sap_send
        || h.payload_info.function_code == func_receive)

unfoldable pub received_header :
    Header → ClientSetupState → Result Error ReceiveDisposition × ClientSetupState
unfolding is_normal_deallocation
received_header h s =
    if is_normal_deallocation h s
    then (ok normal_deallocation, closed)
    else if not (h.appc_return_code == 0) || not (h.sap_return_code == 0)
    then (
      err (peer_return_code h.payload_info.function_code h.appc_return_code h.sap_return_code),
      closed,
    )
    else if allowed_to_receive s h.payload_info.function_code
    then (ok accepted, after_received s)
    else (err state, closed)

unfoldable pub received :
    List ℕ → ClientSetupState → Result Error ReceiveDisposition × ClientSetupState
received payload s =
    if ltb (length payload) record_header_length
    then (err (wrong_length (length payload)), closed)
    else elim (decode_header payload) [ err e ↦ (err e, closed) | ok h ↦ received_header h s ]

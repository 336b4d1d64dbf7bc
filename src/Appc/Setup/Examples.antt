-- ===== src/Appc/Setup/Examples.antt =====
-- Runs of the setup state machine, and its theorems at a concrete handshake.
use open_rfc_go.Base.{ℕ, ◌≡◌, refl, ◌⊎◌, true, false, List, [], ◌∷◌, replicate, ok, err}
use open_rfc_go.Appc.{state}
use open_rfc_go.Appc.Header.{decode_header, read_header, inspect_payload}
use open_rfc_go.Appc.Setup.{
  ClientSetupState, ready, sent, received, received_header, is_normal_deallocation,
}
use open_rfc_go.Appc.Setup.Protocol.{Sends, sent-Sends}
use open_rfc_go.Appc.Setup.Acts.{Act, send, reply, act, run, Handshake}
use open_rfc_go.Appc.Setup.Handshake.{run-Handshake}
use open_rfc_go.Wire.{context_or_default}
use open_rfc_go.Wire.Reader

-- A reply of 80 bytes without an error code.
abbrev reply_of : ℕ → List ℕ
reply_of f = 6 ∷ f ∷ replicate 78 0

abbrev opening : List Act
opening = send 1 false ∷ reply (reply_of 1) ∷ send 15 false ∷ send 5 false ∷ reply (reply_of 5) ∷ []

run-Handshake_example : Handshake opening
unfolding run act sent received received_header is_normal_deallocation decode_header read_header
    inspect_payload Reader.new_reader context_or_default Reader.read_uint8 Reader.read_uint16_be
    Reader.read_uint32_be Reader.read_int32_be Reader.read_bytes Reader.checked Reader.ensure
    Reader.remaining Reader.finish
run-Handshake_example = run-Handshake opening ready refl tt

sent-Sends_example :
    ((s : ClientSetupState) × Sends ready 203 true s × (sent 203 true ready ≡ (ok tt, s)))
    ⊎ (((s : ClientSetupState) → ¬ Sends ready 203 true s)
        × (sent 203 true ready ≡ (err state, ready)))
sent-Sends_example = sent-Sends ready 203 true

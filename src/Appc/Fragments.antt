-- ===== src/Appc/Fragments.antt =====
-- fragmentation.go: what each fragment of a message is, and the SAP parameters of a compact one.
use open_rfc_go.Base.{
  ℕ, ◌+◌, ◌%◌, ◌^◌, ◌≤◌, ◌<◌, ◌≡◌, sym, ap, ap₂, ◌∙◌, ◌↔◌, true, false, List, [], ◌∷◌, ◌++◌, length,
  All, arith, dec_lt, ◌*◌, ok,
}
use open_rfc_go.Base.Bytes.{IsByte, put_uint16_be, put-uint16_be}
use open_rfc_go.Appc.{
  FragmentSemantics, outgoing_fragment_semantics, func_send_data, func_async_send_data,
  func_receive, func_sap_send, validate_final_sap_parameters,
}

-- The part that a fragment plays in its message.
pub data Role : Type 0 where
  whole terminator barrier slice : Role

-- A message of one fragment is whole; of several, the last one is the terminator, and of the others
-- each one whose place is a positive multiple of 21 is a barrier.
pub data Plays (index count : ℕ) : Role → Type 0 where
  alone : count ≡ 1 → Plays index count whole
  ends : 1 < count → index + 1 ≡ count → Plays index count terminator
  syncs : index + 1 < count → 1 ≤ index → index % 21 ≡ 0 → Plays index count barrier
  follows : index + 1 < count → (1 ≤ index → 1 ≤ index % 21) → Plays index count slice

abbrev pub semantics_of : Role → FragmentSemantics
semantics_of whole = record {
  function_code = func_sap_send;
  is_final = true;
  info = 5;
  vector = 12;
  sap_parameter_length = 8;
}
semantics_of terminator = record {
  function_code = func_receive;
  is_final = true;
  info = 1;
  vector = 0;
  sap_parameter_length = 0;
}
semantics_of barrier = record {
  function_code = func_send_data;
  is_final = false;
  info = 1;
  vector = 0;
  sap_parameter_length = 0;
}
semantics_of slice = record {
  function_code = func_async_send_data;
  is_final = false;
  info = 0;
  vector = 0;
  sap_parameter_length = 0;
}

role_semantics :
    (index count : ℕ) (role : Role)
    → index < count
    → Plays index count role
    → outgoing_fragment_semantics index count ≡ semantics_of role
unfolding outgoing_fragment_semantics
role_semantics index count role h (alone one) = ground arith
role_semantics index count role h (ends many last) = ground arith
role_semantics index count role h (syncs before later multiple) = ground arith
role_semantics index count role h (follows before apart) = ground arith

some_role : (index count : ℕ) → index < count → (role : Role) × Plays index count role
some_role index count h = elim (dec_lt 1 count) [
  | no single ↦ (whole, alone (omega arith))
  | yes many ↦ elim (dec_lt (index + 1) count) [
    | no last ↦ (terminator, ends many (omega arith))
    | yes before ↦ elim (dec_lt 0 index) [
      | no first ↦ (slice, follows before (omega arith))
      | yes later ↦ elim (dec_lt 0 (index % 21)) [
        | yes apart ↦ (slice, follows before (omega arith))
        | no multiple ↦ (barrier, syncs before later (omega arith))
      ]
    ]
  ]
]

-- A fragment of a message has the function, flags and parameter length of the role that its place
-- gives it: whole if it is the only one; else terminator if it is the last; else barrier at each
-- positive multiple of 21, and slice at the other places.
pub outgoing_fragment_semantics_lem :
    (index count : ℕ)
    → index < count
    → (role : Role) × Plays index count role
      × (outgoing_fragment_semantics index count ≡ semantics_of role)
outgoing_fragment_semantics_lem index count h =
    let (role, plays) = some_role index count h in
    (role, plays, role_semantics index count role h plays)

accepted :
    (ps : List ℕ) (n : ℕ)
    → All IsByte ps
    → validate_final_sap_parameters ps n ≡ ok tt
    → (tail : List ℕ) × (length tail ≡ 4) × (ps ≡ 0 ∷ 0 ∷ (put_uint16_be n ++ tail))
unfolding validate_final_sap_parameters
accepted (a ∷ b ∷ c ∷ d ∷ tail) n (pa, (pb, (pc, (pd, p)))) e =
    let sized : length tail ≡ 4 = ground arith in
    let zero_word : a * 256 + b ≡ 0 = ground arith in
    let declared : c * 256 + d ≡ n = ground arith in
    (
      tail,
      sized,
      ap₂ (λ x y. x ++ (y ++ tail)) (two_zeros a b zero_word)
          (sym (put-uint16_be c d pc pd) ∙ ap put_uint16_be declared),
    )
  where
    two_zeros : (a b : ℕ) → a * 256 + b ≡ 0 → ◌≡◌ {A = List ℕ} (a ∷ b ∷ []) (0 ∷ 0 ∷ [])
    two_zeros a b h = ap₂ (λ x y. x ∷ y ∷ []) (omega arith) (omega arith)
accepted [] n p e = absurd (ground arith)
accepted (_ ∷ []) n p e = absurd (ground arith)
accepted (_ ∷ _ ∷ []) n p e = absurd (ground arith)
accepted (_ ∷ _ ∷ _ ∷ []) n p e = absurd (ground arith)

accepts :
    (tail : List ℕ) (n : ℕ)
    → n < 2 ^ 16
    → length tail ≡ 4
    → validate_final_sap_parameters (0 ∷ 0 ∷ (put_uint16_be n ++ tail)) n ≡ ok tt
unfolding validate_final_sap_parameters
accepts tail n h sized = ground arith

-- For a message of less than 64 KiB, SAP parameters are accepted exactly if they are two zero bytes,
-- its length as a word, and four more bytes.
pub validate_final_sap_parameters_iff :
    (ps : List ℕ) (n : ℕ)
    → All IsByte ps
    → n < 2 ^ 16
    → (validate_final_sap_parameters ps n ≡ ok tt)
      ↔ ((tail : List ℕ) × (length tail ≡ 4) × (ps ≡ 0 ∷ 0 ∷ (put_uint16_be n ++ tail)))
validate_final_sap_parameters_iff ps n b h =
    (accepted ps n b, λ t. ap (λ xs. validate_final_sap_parameters xs n) t.2 ∙ accepts t.0 n h t.1)

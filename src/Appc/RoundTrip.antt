-- ===== src/Appc/RoundTrip.antt =====
-- fragmentation.go: data operation information, written and read back.
use open_rfc_go.Base.{
  ℕ, pos, zero, suc, ◌+◌, ◌^◌, ◌≤◌, ◌<◌, ◌≡◌, refl, sym, ap, ap₂, ◌∙◌, Bool, true, false, inl, inr,
  ◌&&◌, ◌||◌, List, [], ◌∷◌, ◌++◌, length, take, drop, take_all, take-add, drop-drop, length-take,
  length-drop, replicate, All, All-drop, arith, dec_lt, ℕ_discrete, Result-cases, ◌≢◌, subst, ltb,
  ◌==◌, if◌then◌else◌, ok, err,
}
use open_rfc_go.Base.Bytes.{IsByte, put_uint16_be, uint16_be, put-uint16_be}
use open_rfc_go.Appc.{
  Error, range, wrong_length, DataOperationInfo, max_application_data_fragment_length,
  encode_async_data_info, all_zero, decode_data_operation_info, decode_async_data_info,
}
use open_rfc_go.Appc.DataInfo.{info_bytes, encode_bytes, decode_exact, decoded}

abbrev pub data_info : ℕ → ℕ → ℕ → DataOperationInfo
data_info n communication connection = record {
  data_length = n;
  communication_index = communication;
  connection_index = connection;
}

decode_async_step :
    (bs : List ℕ) (d : DataOperationInfo)
    → decode_data_operation_info bs ≡ ok d
    → decode_async_data_info bs ≡ (
        if ltb d.data_length 1 || ltb max_application_data_fragment_length d.data_length
        then err range
        else ok d)
unfolding decode_async_data_info
decode_async_step bs d e = rw (decode_async_data_info, e) refl

-- The information of a slice of 1 to 28000 bytes, with indices of 16 bits, is encoded without error
-- and decoded to the same length and indices.
pub decode-encode_async_data_info :
    (n communication connection : ℕ)
    → 1 ≤ n
    → n ≤ max_application_data_fragment_length
    → communication < 2 ^ 16
    → connection < 2 ^ 16
    → (bs : List ℕ) × (encode_async_data_info (pos n) communication connection ≡ ok bs)
      × (decode_async_data_info bs ≡ ok (data_info n communication connection))
decode-encode_async_data_info n communication connection lo hi c₁ c₂ =
    let same : decoded (info_bytes n communication connection)
        ≡ data_info n communication connection =
      data_info-eq (omega arith) (omega arith) (omega arith) in
    let accepted : (if uint16_be (drop 0 (info_bytes n communication connection)) == 0
            && all_zero (take 24 (drop 4 (info_bytes n communication connection)))
          then ok (decoded (info_bytes n communication connection))
          else err range)
        ≡ ok (decoded (info_bytes n communication connection)) =
      unfold all_zero in refl in
    let fine : (ltb n 1 || ltb max_application_data_fragment_length n) ≡ false = ground arith in
    (
      info_bytes n communication connection,
      encode_bytes n communication connection lo hi,
      decode_async_step (info_bytes n communication connection)
            (data_info n communication connection)
            (decode_exact (info_bytes n communication connection) refl ∙ accepted ∙ ap ok same)
          ∙ rw fine refl,
    )
  where
    data_info-eq :
        {a a' b b' c c' : ℕ} → a ≡ a' → b ≡ b' → c ≡ c' → data_info a b c ≡ data_info a' b' c'
    data_info-eq p q r = rw (p, q, r)

all_zero→replicate : (bs : List ℕ) → all_zero bs ≡ true → bs ≡ replicate (length bs) 0
unfolding all_zero
all_zero→replicate [] h = refl
all_zero→replicate (zero ∷ bs) h = ap (λ xs. 0 ∷ xs) (all_zero→replicate bs h)
all_zero→replicate (suc b ∷ bs) h = absurd (ground arith)

put-uint16_be-take :
    (bs : List ℕ) → All IsByte bs → 2 ≤ length bs → put_uint16_be (uint16_be bs) ≡ take 2 bs
put-uint16_be-take (a ∷ b ∷ bs) (p, (q, _)) h = put-uint16_be a b p q
put-uint16_be-take (a ∷ []) p h = absurd (omega arith)
put-uint16_be-take [] p h = absurd (omega arith)

split_at :
    (m n at : ℕ) (bs : List ℕ)
    → take (m + n) (drop at bs) ≡ take m (drop at bs) ++ take n (drop (at + m) bs)
split_at m n at bs =
    take-add m n (drop at bs) ∙ ap (λ xs. take m (drop at bs) ++ take n xs) (drop-drop m at bs)

-- The record in its parts.
in_parts :
    (bs : List ℕ)
    → length bs ≡ 32
    → bs
      ≡ take 2 (drop 0 bs)
        ++ (take 2 (drop 2 bs)
            ++ (take 24 (drop 4 bs) ++ (take 2 (drop 28 bs) ++ take 2 (drop 30 bs))))
in_parts bs h =
    sym (take_all 32 bs (omega arith))
    ∙ split_at 2 30 0 bs
    ∙ ap (λ xs. take 2 (drop 0 bs) ++ xs)
        (split_at 2 28 2 bs
          ∙ ap (λ xs. take 2 (drop 2 bs) ++ xs)
              (split_at 24 4 4 bs ∙ ap (λ xs. take 24 (drop 4 bs) ++ xs) (split_at 2 2 28 bs)))

word :
    (bs : List ℕ) (at : ℕ)
    → All IsByte bs
    → at + 2 ≤ length bs
    → take 2 (drop at bs) ≡ put_uint16_be (uint16_be (drop at bs))
word bs at b h =
    sym
      (put-uint16_be-take (drop at bs) (All-drop IsByte at bs b) (omega (arith, length-drop at bs)))

zeros_there :
    (bs : List ℕ)
    → length bs ≡ 32
    → all_zero (take 24 (drop 4 bs)) ≡ true
    → take 24 (drop 4 bs) ≡ replicate 24 0
zeros_there bs h z =
    all_zero→replicate (take 24 (drop 4 bs)) z
    ∙ ap (λ n. replicate n 0) {y = 24} (omega (arith, length-take 24 (drop 4 bs), length-drop 4 bs))

info_bytes-decoded :
    (bs : List ℕ)
    → length bs ≡ 32
    → All IsByte bs
    → uint16_be (drop 0 bs) ≡ 0
    → all_zero (take 24 (drop 4 bs)) ≡ true
    → info_bytes (uint16_be (drop 2 bs)) (uint16_be (drop 28 bs)) (uint16_be (drop 30 bs)) ≡ bs
info_bytes-decoded bs h b first z =
    let p₀ : take 2 (drop 0 bs) ≡ 0 ∷ 0 ∷ [] = word bs 0 b (omega arith) ∙ ap put_uint16_be first in
    let back : take 2 (drop 0 bs)
          ++ (take 2 (drop 2 bs)
              ++ (take 24 (drop 4 bs) ++ (take 2 (drop 28 bs) ++ take 2 (drop 30 bs))))
        ≡ info_bytes (uint16_be (drop 2 bs)) (uint16_be (drop 28 bs)) (uint16_be (drop 30 bs)) =
      ap₂ (λ x y. x ++ y) p₀
        (ap₂ (λ x y. x ++ y) (word bs 2 b (omega arith))
          (ap₂ (λ x y. x ++ y) (zeros_there bs h z)
            (ap₂ (λ x y. x ++ y) (word bs 28 b (omega arith)) (word bs 30 b (omega arith))))) in
    sym (in_parts bs h ∙ back)

wrong_size :
    (bs : List ℕ) → length bs ≢ 32 → decode_data_operation_info bs ≡ err (wrong_length (length bs))
unfolding decode_data_operation_info
wrong_size bs h = let other : (length bs == 32) ≡ false = ground arith in rw other refl

both_hold :
    {d h : DataOperationInfo} (first zeros : Bool)
    → (if first && zeros then ok d else err range) ≡ ok h
    → (first ≡ true) × (zeros ≡ true) × (d ≡ h)
both_hold false zeros e = absurd (ground arith)
both_hold true false e = absurd (ground arith)
both_hold true true e = (refl, refl, ground arith)

accepted_parts :
    (bs : List ℕ) (h : DataOperationInfo)
    → decode_data_operation_info bs ≡ ok h
    → (length bs ≡ 32)
      × (h ≡ decoded bs)
      × (uint16_be (drop 0 bs) ≡ 0)
      × (all_zero (take 24 (drop 4 bs)) ≡ true)
accepted_parts bs h e = elim (ℕ_discrete (length bs) 32) [
  | no other ↦ absurd (ground (arith, wrong_size bs other))
  | yes sized ↦
      let (first, zeros, same) =
        both_hold (uint16_be (drop 0 bs) == 0) (all_zero (take 24 (drop 4 bs)))
          (sym (decode_exact bs sized) ∙ e) in
      let zero_word : uint16_be (drop 0 bs) ≡ 0 = ground arith in
      (sized, sym same, zero_word, zeros)
]

stays_refused :
    (bs : List ℕ) (e : Error)
    → decode_data_operation_info bs ≡ err e
    → decode_async_data_info bs ≡ err e
unfolding decode_async_data_info
stays_refused bs e h = rw (decode_async_data_info, h) refl

accepted_length :
    (bs : List ℕ) (h : DataOperationInfo)
    → decode_async_data_info bs ≡ ok h
    → (decode_data_operation_info bs ≡ ok h)
      × (1 ≤ h.data_length)
      × (h.data_length ≤ max_application_data_fragment_length)
accepted_length bs h e = elim (Result-cases (decode_data_operation_info bs)) [
  | inr (bad, refused) ↦ absurd (ground (arith, stays_refused bs bad refused))
  | inl (d, read) ↦ at d read (sym (decode_async_step bs d read) ∙ e)
]
  where
    at :
        (d : DataOperationInfo)
        → decode_data_operation_info bs ≡ ok d
        → (if ltb d.data_length 1 || ltb max_application_data_fragment_length d.data_length
            then err range
            else ok d)
          ≡ ok h
        → (decode_data_operation_info bs ≡ ok h)
          × (1 ≤ h.data_length)
          × (h.data_length ≤ max_application_data_fragment_length)
    at d read step = elim (dec_lt d.data_length 1) [
      | yes low ↦ absurd (ground arith)
      | no lo ↦ elim (dec_lt max_application_data_fragment_length d.data_length) [
        | yes high ↦ absurd (ground arith)
        | no hi ↦
            let same : d ≡ h = ground arith in
            (
              read ∙ ap ok same,
              subst (λ x. 1 ≤ x.data_length) same (omega arith),
              subst (λ x. x.data_length ≤ max_application_data_fragment_length) same (omega arith),
            )
      ]
    ]

-- Bytes that are accepted as the information of an F_ASEND_DATA record are the encoding of what they
-- are decoded to.
pub decode_async_data_info-inverse :
    (bs : List ℕ) (h : DataOperationInfo)
    → All IsByte bs
    → decode_async_data_info bs ≡ ok h
    → encode_async_data_info (pos h.data_length) h.communication_index h.connection_index ≡ ok bs
decode_async_data_info-inverse bs h b e =
    let (read, lo, hi) = accepted_length bs h e in
    let (sized, same, first, z) = accepted_parts bs h read in
    encode_bytes h.data_length h.communication_index h.connection_index lo hi
    ∙ ap ok (
        ap (λ d. info_bytes d.data_length d.communication_index d.connection_index) same
        ∙ info_bytes-decoded bs sized b first z)

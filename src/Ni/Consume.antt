-- ===== src/Ni/Consume.antt =====
-- `consume` takes bytes off the front of the queue, and `peek` reads the length prefix there.
use open_rfc_go.Base.{
  ℕ, zero, suc, ◌+◌, ◌-◌, ◌≤◌, ◌<◌, ◌≡◌, refl, ap, sym, ◌∙◌, ◌⊎◌, inl, inr, some, List, [], ◌∷◌,
  ◌++◌, append_assoc, append-nil, length, length-drop, take, drop, drop-nil, take-add, drop-drop,
  ap₂, All-drop, false, take-append_le, drop-append_le, get_elem?, reads, arith, min, ok,
  ℕ_discrete, ltb,
}
use mathlib.Core.List.{flatten}
use open_rfc_go.Base.Bytes.{IsByte}
use open_rfc_go.Ni.{FrameDecoder, compact, advance, consume_loop, consume, settle}
use open_rfc_go.Ni.Queue.{rest, pending, Ready, IsValid, compact-rest, advance_full, advance-rest}

consume_loop_next :
    (fuel left : ℕ) (out c : List ℕ) (d : FrameDecoder)
    → get_elem? d.chunks d.head_index ≡ some c
    → let n = min (suc left) (length c - d.head_offset) in
      consume_loop (suc fuel) (suc left) out d
      ≡ consume_loop fuel
          (suc left - n)
          (out ++ take n (drop d.head_offset c))
          (advance d n (length c))
unfolding consume_loop
consume_loop_next fuel left out c d e = rw (e, consume_loop)

abbrev Consumes : FrameDecoder → FrameDecoder → ℕ → Type 0
Consumes d d' n =
    Ready (rest d') d'.head_offset
    × (pending d' ≡ drop n (pending d))
    × (d'.buffered ≡ d.buffered)
    × (d'.max_payload_length ≡ d.max_payload_length)
    × (d'.head_index ≤ length d'.chunks)

advance_keeps :
    (d : FrameDecoder) (n size : ℕ)
    → ((advance d n size).buffered ≡ d.buffered)
      × ((advance d n size).max_payload_length ≡ d.max_payload_length)
      × (d.head_index < length d.chunks
          → (advance d n size).head_index ≤ length (advance d n size).chunks)
unfolding advance
advance_keeps d n size = ground arith

-- A round takes what the head chunk has, and drains it unless that is enough.
drains :
    (m : ℕ) (d : FrameDecoder) (c : List ℕ)
    → rest d ≡ c ∷ drop (d.head_index + 1) d.chunks
    → d.head_offset < length c
    → let n = min m (length c - d.head_offset) in
      (m - n ≡ 0) ⊎ (length (rest (advance d n (length c))) < length (rest d))
drains m d c split h =
    let n = min m (length c - d.head_offset) in
    elim (ℕ_discrete (d.head_offset + n) (length c)) [
      | yes full ↦ inr (rw (advance_full d n (length c) full, split) (omega arith))
      | no part ↦ inl (omega arith)
    ]

takes :
    (n : ℕ) (d : FrameDecoder) (c : List ℕ) (cs : List (List ℕ))
    → rest d ≡ c ∷ cs
    → d.head_offset < length c
    → n ≤ length c - d.head_offset
    → take n (drop d.head_offset c) ≡ take n (pending d)
unfolding flatten
takes n d c cs split h fits =
    rw (split, drop-append_le d.head_offset c (flatten cs) (omega arith))
      (sym (
        take-append_le n (drop d.head_offset c) (flatten cs)
          (omega (arith, length-drop d.head_offset c))))

no_rest : (d : FrameDecoder) → rest d ≡ [] → length (pending d) ≡ 0
unfolding flatten
no_rest d e = rw e (rw drop-nil)

consume_loop_lem :
    (fuel n : ℕ) (out : List ℕ) (d : FrameDecoder)
    → Ready (rest d) d.head_offset
    → n ≤ length (pending d)
    → (n ≡ 0) ⊎ (length (rest d) < fuel)
    → d.head_index ≤ length d.chunks
    → (d' : FrameDecoder) × (consume_loop fuel n out d ≡ (ok (out ++ take n (pending d)), d'))
      × Consumes d d' n
consume_loop_lem fuel zero out d r h f i =
    (d, unfold consume_loop in rw append-nil, (r, refl, refl, refl, i))
consume_loop_lem zero (suc left) out d r h f i = absurd (omega arith)
consume_loop_lem (suc fuel) (suc left) out d r h f i = elim (reads d.chunks d.head_index) [
  | inl (_, empty) ↦ absurd (omega (arith, no_rest d empty))
  | inr (c, here, split) ↦
      let at = d.head_offset in
      let n = min (suc left) (length c - at) in
      let d₁ = advance d n (length c) in
      let r' : Ready (c ∷ drop (d.head_index + 1) d.chunks) at = rw split at r in
      let (r₁, p₁) = advance-rest d n c _ split refl r' (omega arith) in
      let (b₁, m₁, i₁) = advance_keeps d n (length c) in
      let (d', e, (r'', p', b', m', i')) =
        consume_loop_lem fuel (suc left - n) (out ++ take n (drop at c)) d₁ r₁
          (omega (arith, ap (length {A = ℕ}) p₁, length-drop n (pending d)))
          (shorter (drains (suc left) d c split r'.0) f)
          (i₁ (omega (arith, ap (length {A = List ℕ}) split, length-drop d.head_index d.chunks))) in
      let sum : n + (suc left - n) ≡ suc left = omega arith in
      let joined : take n (drop at c) ++ take (suc left - n) (pending d₁)
          ≡ take (suc left) (pending d) =
        ap₂ ◌++◌ (takes n d c _ split r'.0 (omega arith)) (ap (take (suc left - n)) p₁)
        ∙ sym (take-add n (suc left - n) (pending d))
        ∙ ap (λ k. take k (pending d)) sum in
      (
        d',
        consume_loop_next fuel left out c d here
            ∙ e
            ∙ ap (λ bs. (ok bs, d')) (append_assoc out _ _ ∙ ap (◌++◌ out) joined),
        (
          r'',
          p'
              ∙ ap (drop (suc left - n)) p₁
              ∙ drop-drop (suc left - n) n (pending d)
              ∙ ap (λ k. drop k (pending d)) sum,
          b' ∙ b₁,
          m' ∙ m₁,
          i',
        ),
      )
]
  where
    shorter :
        {m k l : ℕ} → (m ≡ 0) ⊎ (k < l) → (suc left ≡ 0) ⊎ (l < suc fuel) → (m ≡ 0) ⊎ (k < fuel)
    shorter (inl a) b = inl a
    shorter (inr a) b = inr (omega arith)

not_below : (d : FrameDecoder) (n : ℕ) → n ≤ d.buffered → ltb d.buffered n ≡ false
not_below d n h = ground arith

-- `consume` removes n bytes from the front and returns them.
pub consume_lem :
    (n : ℕ) (d : FrameDecoder)
    → IsValid d
    → n ≤ d.buffered
    → (d' : FrameDecoder) × (consume n d ≡ (ok (take n (pending d)), d'))
      × IsValid d'
      × (pending d' ≡ drop n (pending d))
      × (d'.max_payload_length ≡ d.max_payload_length)
unfolding consume settle
consume_lem n d v h =
    let (d₁, e, (r₁, p₁, b₁, m₁, i₁)) =
      consume_loop_lem (suc (length d.chunks)) n [] d v.ready (omega arith)
        (inr (omega (arith, length-drop d.head_index d.chunks))) v.inside in
    let d₂ : FrameDecoder = record d₁ { buffered = d₁.buffered - n } in
    let (cr, co, cb, cm, ci) = compact-rest d₂ in
    let front : pending (compact d₂) ≡ drop n (pending d) = rw (cr, co) p₁ in
    (
      compact d₂,
      rw (not_below d n h, e),
      record {
        ready = rw (cr, co) r₁;
        counted = omega (arith, ap (length {A = ℕ}) front, length-drop n (pending d));
        inside = ci i₁;
        octets = rw front (All-drop IsByte n (pending d) v.octets);
      },
      front,
      cm ∙ m₁,
    )

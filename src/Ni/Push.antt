-- ===== src/Ni/Push.antt =====
-- `push` finds exactly the frames of what is pending and what is pushed.
use open_rfc_go.Base.{
  ℕ, zero, suc, ◌+◌, ◌≤◌, ◌<◌, ◌≡◌, refl, ap, sym, ◌∙◌, List, [], ◌∷◌, ◌++◌, append_assoc,
  append-nil, length, length-drop, take, drop, drop-drop, All, arith, Result, ok, err,
}
use open_rfc_go.Base.Bytes.{IsByte, uint32_be}
use open_rfc_go.Ni.{
  FrameDecoder, Error, payload_too_large, peek_payload_length, consume, push_loop, push, retain,
}
use open_rfc_go.Ni.Queue.{pending, IsValid, peek_lem, retain_lem}
use open_rfc_go.Ni.Consume.{consume_lem}
use open_rfc_go.Ni.Stream.{
  Split, split, too_large, prepend, frames, frames_of, few, large, partial, full, front, frames_few,
  frames_large, frames_partial, frames_full,
}

-- What `push` owes for what the stream means, from the payloads found before.
abbrev pub Yields : ℕ → List (List ℕ) → Split → Result Error (List (List ℕ)) × FrameDecoder → Type 0
Yields max found (split ps rest) r =
    (d' : FrameDecoder) × (r ≡ (ok (found ++ ps), d'))
    × (IsValid d' × (pending d' ≡ rest) × (d'.max_payload_length ≡ max))
Yields max found (too_large n) r = (r.0 ≡ err (payload_too_large n max)) × (max < n)

Yields-prepend :
    (max : ℕ) (found : List (List ℕ)) (p : List ℕ) (s : Split)
    (r : Result Error (List (List ℕ)) × FrameDecoder)
    → Yields max (found ++ (p ∷ [])) s r
    → Yields max found (prepend (p ∷ []) s) r
Yields-prepend max found p (split ps rest) r (d', e, v) =
    (d', e ∙ ap (λ qs. (ok qs, d')) (append_assoc found (p ∷ []) ps), v)
Yields-prepend max found p (too_large n) r y = y

module _ (fuel : ℕ) (found : List (List ℕ)) (d : FrameDecoder) where
  loop_few : d.buffered < 4 → push_loop (suc fuel) found d ≡ (ok found, d)
  unfolding push_loop
  loop_few h = ground arith

  module _ (n : ℕ) (peeked : peek_payload_length d ≡ ok n) (h : 4 ≤ d.buffered) where
    loop_large :
        d.max_payload_length < n
        → push_loop (suc fuel) found d ≡ (err (payload_too_large n d.max_payload_length), d)
    unfolding push_loop
    loop_large k = ground arith

    loop_partial :
        n ≤ d.max_payload_length → d.buffered < 4 + n → push_loop (suc fuel) found d ≡ (ok found, d)
    unfolding push_loop
    loop_partial k l = ground arith

    loop_full :
        (b p : List ℕ) (d₁ d₂ : FrameDecoder)
        → n ≤ d.max_payload_length
        → 4 + n ≤ d.buffered
        → consume 4 d ≡ (ok b, d₁)
        → consume n d₁ ≡ (ok p, d₂)
        → push_loop (suc fuel) found d ≡ push_loop fuel (found ++ (p ∷ [])) d₂
    unfolding push_loop
    loop_full b p d₁ d₂ k l e e' = ground arith

-- A round that finds a frame, given what the rounds after it yield.
found_frame :
    (fuel max : ℕ) (found : List (List ℕ)) (d d₁ d₂ : FrameDecoder)
    → let bs = pending d in
      let n = uint32_be bs in
      IsValid d
      → d.max_payload_length ≡ max
      → 4 ≤ length bs
      → n ≤ max
      → 4 + n ≤ length bs
      → consume 4 d ≡ (ok (take 4 bs), d₁)
      → pending d₁ ≡ drop 4 bs
      → consume n d₁ ≡ (ok (take n (pending d₁)), d₂)
      → pending d₂ ≡ drop (4 + n) bs
      → Yields max
          (found ++ (take n (pending d₁) ∷ []))
          (frames fuel max (pending d₂))
          (push_loop fuel (found ++ (take n (pending d₁) ∷ [])) d₂)
      → Yields max found (frames (suc fuel) max bs) (push_loop (suc fuel) found d)
found_frame fuel max found d d₁ d₂ v m a b c e₁ p₁ e₂ p₂ ih =
    let bs = pending d in
    let n = uint32_be bs in
    let step =
      loop_full fuel found d n (peek_lem d v (omega arith)) (omega arith) (take 4 bs)
        (take n (pending d₁)) d₁ d₂ (omega arith) (omega arith) e₁ e₂ in
    rw (frames_full fuel max bs a b c) (
      Yields-prepend max found (take n (drop 4 bs)) (frames fuel max (drop (4 + n) bs)) _
        (rw (step, ← p₂, ← p₁) ih))

push_loop-frames :
    (fuel max : ℕ) (found : List (List ℕ)) (d : FrameDecoder)
    → IsValid d
    → d.max_payload_length ≡ max
    → d.buffered < fuel
    → Yields max found (frames fuel max (pending d)) (push_loop fuel found d)
push_loop-frames zero max found d v m h = absurd (omega arith)
push_loop-frames (suc fuel) max found d v m h =
    let bs = pending d in
    let n = uint32_be bs in
    elim (front max bs) [
      | few a ↦
          rw (frames_few fuel max bs a)
            (d, loop_few fuel found d (omega arith) ∙ as_is, (v, refl, m))
      | large a b ↦ rw (frames_large fuel max bs a b) (
        rw (loop_large fuel found d n (peek_lem d v (omega arith)) (omega arith) (omega arith), m),
        b,
      )
      | partial a b c ↦ rw (frames_partial fuel max bs a b c) (
        d,
        loop_partial fuel found d n (peek_lem d v (omega arith)) (omega arith) (omega arith)
              (omega arith)
            ∙ as_is,
        (v, refl, m),
      )
      | full a b c ↦
          let (d₁, e₁, v₁, p₁, m₁) = consume_lem 4 d v (omega arith) in
          let (d₂, e₂, v₂, p₂, m₂) =
            consume_lem n d₁ v₁
              (omega (arith, v₁.counted, ap (length {A = ℕ}) p₁, length-drop 4 bs)) in
          let left : pending d₂ ≡ drop (4 + n) bs = p₂ ∙ ap (drop n) p₁ ∙ drop-drop n 4 bs in
          found_frame fuel max found d d₁ d₂ v m a b c e₁ p₁ e₂ left (
            push_loop-frames fuel max (found ++ (take n (pending d₁) ∷ [])) d₂ v₂ (m₂ ∙ m₁ ∙ m)
              (omega (arith, v₂.counted, ap (length {A = ℕ}) left, length-drop (4 + n) bs)))
    ]
  where
    as_is :
        ◌≡◌ {A = Result Error (List (List ℕ)) × FrameDecoder} (ok found, d) (ok (found ++ []), d)
    as_is = ap (λ ps. (ok ps, d)) (sym (append-nil found))

-- One Push on a valid decoder returns the complete frames of the pending bytes and the chunk and
-- stays valid with the rest pending, or reports the first advertised length above the limit.
pub push-frames :
    (max : ℕ) (chunk : List ℕ) (d : FrameDecoder)
    → IsValid d
    → d.max_payload_length ≡ max
    → All IsByte chunk
    → Yields max [] (frames_of max (pending d ++ chunk)) (push chunk d)
unfolding push
push-frames max chunk d v m b =
    let (v', p', m') = retain_lem chunk d v b in
    let d' = retain chunk d in
    let size : d'.buffered ≡ length (pending d ++ chunk) = v'.counted ∙ ap (length {A = ℕ}) p' in
    rw (← size, ← p') (push_loop-frames (suc d'.buffered) max [] d' v' (m' ∙ m) (omega arith))

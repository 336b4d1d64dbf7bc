-- ===== src/Ni/Chunking.antt =====
-- Many pushes: only the bytes matter, not how they are cut into chunks.
use open_rfc_go.Base.{
  ℕ, zero, suc, pos, ◌^◌, ◌≤◌, ◌<◌, ◌≡◌, refl, ap, ◌∙◌, inl, inr, List, [], ◌∷◌, ◌++◌, append_assoc,
  append-nil, length, length-append, All, arith, if◌then◌else◌, ◌==◌, Result, ok, err, Result-cases,
  dec_lt,
}
use mathlib.Core.List.{flatten}
use open_rfc_go.Base.Bytes.{IsByte, put_uint32_be}
use open_rfc_go.Base.Stateful.{bind, pure}
use open_rfc_go.Ni.{
  FrameDecoder, Error, payload_too_long, truncated_stream, push, push_all, new_frame_decoder,
  encode_frame, encode_stream, finish,
}
use open_rfc_go.Ni.Queue.{pending, IsValid}
use open_rfc_go.Ni.Push.{Yields, push-frames}
use open_rfc_go.Ni.Stream.{
  Split, split, too_large, prepend, extend, frames, frames_of, frames-append, frames-frame,
  frames_cut, frames-IsCut, IsCut, Leaves,
}

Yields-bind :
    (max : ℕ) (ps : List (List ℕ)) (s : Split) (r : Result Error (List (List ℕ)) × FrameDecoder)
    → Yields max [] s r
    → Yields max [] (prepend ps s) (bind r (λ qs. pure (ps ++ qs)))
Yields-bind max ps (split qs rest) r (d', e, v) = (d', rw e, v)
Yields-bind max ps (too_large n) (ok qs, d) (e, h) = cc
Yields-bind max ps (too_large n) (err x, d) (e, h) = (e, h)

push_all_ok :
    (c : List ℕ) (cs : List (List ℕ)) (d d₁ : FrameDecoder) (ps : List (List ℕ))
    → push c d ≡ (ok ps, d₁)
    → push_all (c ∷ cs) d ≡ bind (push_all cs d₁) (λ qs. pure (ps ++ qs))
unfolding push_all
push_all_ok c cs d d₁ ps e = rw (e, push_all)

push_all_err :
    (c : List ℕ) (cs : List (List ℕ)) (d : FrameDecoder) (e : Error)
    → (push c d).0 ≡ err e
    → (push_all (c ∷ cs) d).0 ≡ err e
unfolding push_all
push_all_err c cs d e h = ground arith

-- Any sequence of pushes yields the frames of all its bytes.
pub push_all-frames :
    (cs : List (List ℕ)) (d : FrameDecoder) (max : ℕ)
    → IsValid d
    → d.max_payload_length ≡ max
    → IsCut max (pending d)
    → All (All IsByte) cs
    → Yields max [] (frames_of max (pending d ++ flatten cs)) (push_all cs d)
unfolding flatten
push_all-frames [] d max v m cut b =
    rw (append-nil, frames_cut (suc (length (pending d))) max (pending d) cut)
      (d, unfold push_all in refl, (v, refl, m))
push_all-frames (c ∷ cs) d max v m cut (b, bs) =
    let bytes = pending d ++ c in
    let more : frames_of max (bytes ++ flatten cs) ≡ extend max (flatten cs) (frames_of max bytes) =
      frames-append (suc (length bytes)) (suc (length (bytes ++ flatten cs))) max bytes (flatten cs)
        (omega arith) (omega arith) in
    rw (← append_assoc (pending d) c (flatten cs), more)
      (go (λ d₁ v₁ m₁ cut₁. push_all-frames cs d₁ max v₁ m₁ cut₁ bs) (frames_of max bytes)
        (frames-IsCut (suc (length bytes)) max bytes (omega arith)) (push-frames max c d v m b))
  where
    go :
        ((d₁ : FrameDecoder)
          → IsValid d₁
          → d₁.max_payload_length ≡ max
          → IsCut max (pending d₁)
          → Yields max [] (frames_of max (pending d₁ ++ flatten cs)) (push_all cs d₁))
        → (s : Split) → Leaves (IsCut max) s
        → Yields max [] s (push c d)
        → Yields max [] (extend max (flatten cs) s) (push_all (c ∷ cs) d)
    go ih (split ps rest) cut' (d₁, e, (v₁, p₁, m₁)) = rw (push_all_ok c cs d d₁ ps e) (
        Yields-bind max ps (frames_of max (rest ++ flatten cs)) (push_all cs d₁)
          (rw p₁ at (ih d₁ v₁ m₁ (rw p₁ cut'))))
    go ih (too_large n) cut' (e, h) = (push_all_err c cs d _ e, h)

abbrev pub fresh : ℕ → FrameDecoder
fresh max = record {
  max_payload_length = max;
  chunks = [];
  head_index = 0;
  head_offset = 0;
  buffered = 0;
}

pub fresh-IsValid : (max : ℕ) → IsValid (fresh max)
unfolding flatten
fresh-IsValid max = record { ready = (refl, tt); counted = refl; inside = omega arith; octets = tt }

push_all-fresh :
    (max : ℕ) (cs : List (List ℕ))
    → All (All IsByte) cs
    → Yields max [] (frames_of max (flatten cs)) (push_all cs (fresh max))
push_all-fresh max cs b =
    unfold flatten in
    push_all-frames cs (fresh max) max (fresh-IsValid max) refl (inl (omega arith)) b

Yields-same :
    (max : ℕ) (s : Split) (r r' : Result Error (List (List ℕ)) × FrameDecoder)
    → Yields max [] s r
    → Yields max [] s r'
    → r.0 ≡ r'.0
Yields-same max (split ps rest) r r' (d, e, v) (d', e', v') = rw (e, e')
Yields-same max (too_large n) r r' (e, h) (e', h') = rw (e, e')

-- Two ways to cut one stream into chunks give a new decoder the same payloads, or the same error.
pub push_all-chunking :
    (max : ℕ) (d : FrameDecoder) (cs cs' : List (List ℕ))
    → new_frame_decoder (pos max) ≡ ok d
    → All (All IsByte) cs
    → All (All IsByte) cs'
    → flatten cs ≡ flatten cs'
    → (push_all cs d).0 ≡ (push_all cs' d).0
unfolding new_frame_decoder
push_all-chunking max d cs cs' new b b' same =
    let made : d ≡ fresh max = cc in
    rw made (
      Yields-same max (frames_of max (flatten cs)) (push_all cs (fresh max))
        (push_all cs' (fresh max)) (push_all-fresh max cs b)
        (rw (← same) at (push_all-fresh max cs' b')))

encode_frame_ok :
    (p : List ℕ) → length p < 2 ^ 32 → encode_frame p ≡ ok (put_uint32_be (length p) ++ p)
unfolding encode_frame
encode_frame_ok p h = ground arith

encode_frame_long :
    (p : List ℕ) → 2 ^ 32 ≤ length p → encode_frame p ≡ err (payload_too_long (length p))
unfolding encode_frame
encode_frame_long p h = ground arith

encode_stream_cons :
    (p bs : List ℕ) (ps : List (List ℕ))
    → encode_stream (p ∷ ps) ≡ ok bs
    → (rest : List ℕ) × (encode_stream ps ≡ ok rest)
      × (bs ≡ put_uint32_be (length p) ++ (p ++ rest))
      × (length p < 2 ^ 32)
unfolding encode_stream
encode_stream_cons p bs ps e = elim (dec_lt (length p) (2 ^ 32)) [
  | no long ↦ cc (encode_frame_long p (omega arith))
  | yes short ↦ elim (Result-cases (encode_stream ps)) [
    | inr (x, bad) ↦ cc (encode_frame_ok p short)
    | inl (rest, fine) ↦ (rest, fine, cc (encode_frame_ok p short), short)
  ]
]

-- What a sender's stream means.
encode_stream-frames :
    (max f : ℕ) (ps : List (List ℕ)) (bs tail : List ℕ)
    → encode_stream ps ≡ ok bs
    → All (λ p. length p ≤ max) ps
    → IsCut max tail
    → length (bs ++ tail) < f
    → frames f max (bs ++ tail) ≡ split ps tail
encode_stream-frames max f [] bs tail e h cut k =
    let none : bs ≡ [] = unfold encode_stream in cc in rw none (frames_cut f max tail cut)
encode_stream-frames max zero (p ∷ ps) bs tail e h cut k = absurd (omega arith)
encode_stream-frames max (suc f) (p ∷ ps) bs tail e (h, hs) cut k =
    let (rest, e', parts, short) = encode_stream_cons p bs ps e in
    let joined : bs ++ tail ≡ put_uint32_be (length p) ++ (p ++ (rest ++ tail)) =
      rw (parts, append_assoc p rest tail) in
    rw joined (
      frames-frame f max p (rest ++ tail) h short
      ∙ ap (prepend (p ∷ [])) (
          encode_stream-frames max f ps rest tail e' hs cut
            (omega (arith, ap (length {A = ℕ}) joined, length-append p (rest ++ tail)))))

-- The frames of payloads within the limit, cut into chunks in any way and with an incomplete frame
-- behind them, are decoded by a new decoder to exactly those payloads; Finish then accepts if
-- nothing is left, and otherwise reports the number of bytes left.
pub push_all-encode_stream :
    (max : ℕ) (d : FrameDecoder) (ps cs : List (List ℕ)) (bs tail : List ℕ)
    → new_frame_decoder (pos max) ≡ ok d
    → encode_stream ps ≡ ok bs
    → All (λ p. length p ≤ max) ps
    → IsCut max tail
    → All (All IsByte) cs
    → flatten cs ≡ bs ++ tail
    → (d' : FrameDecoder) × (push_all cs d ≡ (ok ps, d'))
      × (finish d' ≡ (if length tail == 0 then ok tt else err (truncated_stream (length tail))))
unfolding new_frame_decoder finish
push_all-encode_stream max d ps cs bs tail new e h cut b same =
    let made : d ≡ fresh max = cc in
    let meaning : frames_of max (flatten cs) ≡ split ps tail =
      rw same (encode_stream-frames max _ ps bs tail e h cut (omega arith)) in
    let (d', done, (v, p, m)) = rw meaning at (push_all-fresh max cs b) in
    (
      d',
      rw made done,
      let n : d'.buffered ≡ length tail = v.counted ∙ ap (length {A = ℕ}) p in rw n,
    )

-- ===== src/Ni/Stream.antt =====
-- What a byte stream means as frames, with no chunks and no queue.
use open_rfc_go.Base.{
  ℕ, zero, suc, ◌+◌, ◌^◌, ◌≤◌, ◌<◌, ◌≡◌, refl, ap, sym, ◌∙◌, true, false, ◌⊎◌, inl, inr, List, [],
  ◌∷◌, ◌++◌, append_assoc, length, length-append, length-drop, take, drop, take-append_le,
  drop-append_le, take-append, drop-append, drop-drop, arith, leb, ltb, dec_lt,
}
use open_rfc_go.Base.Bytes.{uint32_be, put_uint32_be, uint32_be-put}

-- The complete payloads and what is left, or the first length above the limit.
pub data Split : Type 0 where
  split : List (List ℕ) → List ℕ → Split
  too_large : ℕ → Split

abbrev pub prepend : List (List ℕ) → Split → Split
prepend ps (split qs rest) = split (ps ++ qs) rest
prepend ps (too_large n) = too_large n

-- `fuel` bounds the number of frames.
unfoldable pub frames : ℕ → ℕ → List ℕ → Split
frames zero max bs = split [] bs
frames (suc fuel) max bs = elim (leb 4 (length bs)) [
  | false ↦ split [] bs
  | true ↦ elim (ltb max (uint32_be bs)) [
    | true ↦ too_large (uint32_be bs)
    | false ↦ elim (ltb (length bs) (4 + uint32_be bs)) [
      | true ↦ split [] bs
      | false ↦
          prepend (take (uint32_be bs) (drop 4 bs) ∷ [])
            (frames fuel max (drop (4 + uint32_be bs) bs))
    ]
  ]
]

-- Each frame takes four bytes at least.
abbrev pub frames_of : ℕ → List ℕ → Split
frames_of max bs = frames (suc (length bs)) max bs

-- How a stream starts.
pub data Front (max : ℕ) (bs : List ℕ) : Type 0 where
  few : length bs < 4 → Front max bs
  large : 4 ≤ length bs → max < uint32_be bs → Front max bs
  partial : 4 ≤ length bs → uint32_be bs ≤ max → length bs < 4 + uint32_be bs → Front max bs
  full : 4 ≤ length bs → uint32_be bs ≤ max → 4 + uint32_be bs ≤ length bs → Front max bs

pub front : (max : ℕ) (bs : List ℕ) → Front max bs
front max bs = elim (dec_lt (length bs) 4) [
  | yes h ↦ few h
  | no h ↦ elim (dec_lt max (uint32_be bs)) [
    | yes k ↦ large (omega arith) k
    | no k ↦ elim (dec_lt (length bs) (4 + uint32_be bs)) [
      | yes l ↦ partial (omega arith) (omega arith) l
      | no l ↦ full (omega arith) (omega arith) (omega arith)
    ]
  ]
]

module _ (fuel max : ℕ) (bs : List ℕ) where
  pub frames_few : length bs < 4 → frames (suc fuel) max bs ≡ split [] bs
  unfolding frames
  frames_few h = ground arith

  pub frames_large :
      4 ≤ length bs → max < uint32_be bs → frames (suc fuel) max bs ≡ too_large (uint32_be bs)
  unfolding frames
  frames_large h k = ground arith

  pub frames_partial :
      4 ≤ length bs
      → uint32_be bs ≤ max
      → length bs < 4 + uint32_be bs
      → frames (suc fuel) max bs ≡ split [] bs
  unfolding frames
  frames_partial h k l = ground arith

  pub frames_full :
      4 ≤ length bs
      → uint32_be bs ≤ max
      → 4 + uint32_be bs ≤ length bs
      → frames (suc fuel) max bs
        ≡ prepend
            (take (uint32_be bs) (drop 4 bs) ∷ [])
            (frames fuel max (drop (4 + uint32_be bs) bs))
  unfolding frames
  frames_full h k l = ground arith

-- Enough fuel is enough.
frames_fuel :
    (f g max : ℕ) (bs : List ℕ) → length bs < f → length bs < g → frames f max bs ≡ frames g max bs
frames_fuel zero g max bs h k = absurd (omega arith)
frames_fuel (suc f) zero max bs h k = absurd (omega arith)
frames_fuel (suc f) (suc g) max bs h k = elim (front max bs) [
  | few a ↦ frames_few f max bs a ∙ sym (frames_few g max bs a)
  | large a b ↦ frames_large f max bs a b ∙ sym (frames_large g max bs a b)
  | partial a b c ↦ frames_partial f max bs a b c ∙ sym (frames_partial g max bs a b c)
  | full a b c ↦
      let n = uint32_be bs in
      let same =
        frames_fuel f g max (drop (4 + n) bs) (omega (arith, length-drop (4 + n) bs))
          (omega (arith, length-drop (4 + n) bs)) in
      frames_full f max bs a b c
      ∙ ap (prepend (take n (drop 4 bs) ∷ [])) same
      ∙ sym (frames_full g max bs a b c)
]

uint32_be-append : (bs more : List ℕ) → 4 ≤ length bs → uint32_be (bs ++ more) ≡ uint32_be bs
uint32_be-append (a ∷ b ∷ c ∷ d ∷ bs) more h = refl
uint32_be-append _ more h = absurd (omega arith)

prepend-nil : (s : Split) → prepend [] s ≡ s
prepend-nil (split ps rest) = refl
prepend-nil (too_large n) = refl

pub prepend-prepend :
    (ps qs : List (List ℕ)) (s : Split) → prepend ps (prepend qs s) ≡ prepend (ps ++ qs) s
prepend-prepend ps qs (split rs rest) = ap (λ t. split t rest) (sym (append_assoc ps qs rs))
prepend-prepend ps qs (too_large n) = refl

-- More bytes behind a stream: the frames found stay, and the rest is read on with them.
abbrev pub extend : ℕ → List ℕ → Split → Split
extend max more (split ps rest) = prepend ps (frames_of max (rest ++ more))
extend max more (too_large n) = too_large n

extend-prepend :
    (max : ℕ) (more : List ℕ) (ps : List (List ℕ)) (s : Split)
    → extend max more (prepend ps s) ≡ prepend ps (extend max more s)
extend-prepend max more ps (split qs rest) = sym (prepend-prepend ps qs _)
extend-prepend max more ps (too_large n) = refl

pub frames-append :
    (f g max : ℕ) (bs more : List ℕ)
    → length bs < f
    → length (bs ++ more) < g
    → frames g max (bs ++ more) ≡ extend max more (frames f max bs)
frames-append zero g max bs more h k = absurd (omega arith)
frames-append (suc f) zero max bs more h k = absurd (omega arith)
frames-append (suc f) (suc g) max bs more h k = elim (front max bs) [
  | few a ↦ rw (frames_few f max bs a) whole
  | large a b ↦ rw (frames_large f max bs a b) (
      frames_large g max (bs ++ more) (omega (arith, length-append bs more))
        (rw (uint32_be-append bs more a) b)
      ∙ ap too_large (uint32_be-append bs more a))
  | partial a b c ↦ rw (frames_partial f max bs a b c) whole
  | full a b c ↦
      let n = uint32_be bs in
      let same : uint32_be (bs ++ more) ≡ n = uint32_be-append bs more a in
      let tail =
        frames-append f g max (drop (4 + n) bs) more (omega (arith, length-drop (4 + n) bs)) (
          omega (
            arith,
            length-drop (4 + n) bs,
            length-append bs more,
            length-append (drop (4 + n) bs) more,
          )) in
      rw (frames_full f max bs a b c) (
        frames_full g max (bs ++ more) (omega (arith, length-append bs more)) (rw same b)
          (rw same (omega (arith, length-append bs more)))
        ∙ rw
            (
              same,
              drop-append_le 4 bs more a,
              take-append_le n (drop 4 bs) more (omega (arith, length-drop 4 bs)),
              drop-append_le (4 + n) bs more c,
              tail,
            )
            (sym (extend-prepend max more (take n (drop 4 bs) ∷ []) _)))
]
  where
    whole : frames (suc g) max (bs ++ more) ≡ prepend [] (frames_of max (bs ++ more))
    whole = frames_fuel (suc g) _ max (bs ++ more) k (omega arith) ∙ sym (prepend-nil _)

-- A frame in front of a stream.
pub frames-frame :
    (f max : ℕ) (p rest : List ℕ)
    → length p ≤ max
    → length p < 2 ^ 32
    → frames (suc f) max (put_uint32_be (length p) ++ (p ++ rest))
      ≡ prepend (p ∷ []) (frames f max rest)
frames-frame f max p rest h k =
    let bs = put_uint32_be (length p) ++ (p ++ rest) in
    let n : uint32_be bs ≡ length p = uint32_be-put (length p) (p ++ rest) k in
    let long : length bs ≡ 4 + (length p + length rest) = omega (arith, length-append p rest) in
    frames_full f max bs (omega arith) (rw n h) (rw n (omega arith))
    ∙ rw (n, ← drop-drop (length p) 4 bs, take-append p rest, drop-append p rest)

-- What is left of a stream holds no complete frame.
abbrev pub IsCut : ℕ → List ℕ → Type 0
IsCut max bs = (length bs < 4) ⊎ ((uint32_be bs ≤ max) × (length bs < 4 + uint32_be bs))

pub frames_cut : (f max : ℕ) (bs : List ℕ) → IsCut max bs → frames f max bs ≡ split [] bs
frames_cut zero max bs c = unfold frames in refl
frames_cut (suc f) max bs (inl a) = frames_few f max bs a
frames_cut (suc f) max bs (inr (b, c)) = elim (dec_lt (length bs) 4) [
  | yes a ↦ frames_few f max bs a
  | no a ↦ frames_partial f max bs (omega arith) b c
]

-- The rest that a result names.
abbrev pub Leaves : (List ℕ → Type 0) → Split → Type 0
Leaves P (split ps rest) = P rest
Leaves P (too_large n) = Unit

Leaves-prepend :
    (P : List ℕ → Type 0) (ps : List (List ℕ)) (s : Split) → Leaves P s → Leaves P (prepend ps s)
Leaves-prepend P ps (split qs rest) h = h
Leaves-prepend P ps (too_large n) h = h

pub frames-IsCut : (f max : ℕ) (bs : List ℕ) → length bs < f → Leaves (IsCut max) (frames f max bs)
frames-IsCut zero max bs h = absurd (omega arith)
frames-IsCut (suc f) max bs h = elim (front max bs) [
  | few a ↦ rw (frames_few f max bs a) (inl a)
  | large a b ↦ rw (frames_large f max bs a b) tt
  | partial a b c ↦ rw (frames_partial f max bs a b c) (inr (b, c))
  | full a b c ↦ rw (frames_full f max bs a b c) (
      Leaves-prepend (IsCut max) (take (uint32_be bs) (drop 4 bs) ∷ []) _ (
        frames-IsCut f max (drop (4 + uint32_be bs) bs)
          (omega (arith, length-drop (4 + uint32_be bs) bs))))
]

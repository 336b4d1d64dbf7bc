-- ===== src/Ni/Queue.antt =====
-- The decoder's queue holds a byte string: peek reads its front, consume removes it.
use open_rfc_go.Base.{
  ℕ, zero, suc, ◌+◌, ◌-◌, ◌*◌, ◌%◌, ◌^◌, ◌≤◌, ◌<◌, ◌≡◌, refl, ap, sym, ◌∙◌, ◌≢◌, List, [], ◌∷◌,
  ◌++◌, append_assoc, append-nil, length, length-append, length-drop, take, drop, drop_all, dec_lt,
  ℕ_discrete, take-append_le, drop-append_le, drop-append, drop-drop, take-add, All, All-append,
  arith, min, ok,
}
use mathlib.Core.List.{flatten}
use open_rfc_go.Ni.{
  FrameDecoder, peek_loop, peek_payload_length, shift_in, compact, advance, wipe, retain,
}
use open_rfc_go.Base.Bytes.{IsByte, uint32_be}

-- The chunks that are not yet drained, and the bytes that they hold, in order.
abbrev pub rest : FrameDecoder → List (List ℕ)
rest d = drop d.head_index d.chunks

abbrev pub pending : FrameDecoder → List ℕ
pending d = drop d.head_offset (flatten (rest d))

abbrev pub HeadFits : List (List ℕ) → ℕ → Type 0
HeadFits [] at = at ≡ 0
HeadFits (c ∷ cs) at = at < length c

abbrev pub NonEmpty : List (List ℕ) → Type 0
NonEmpty = All (λ c. 0 < length c)

abbrev pub Ready : List (List ℕ) → ℕ → Type 0
Ready cs at = HeadFits cs at × NonEmpty cs

pub record IsValid (d : FrameDecoder) : Type 0 where
  pub ready : Ready (rest d) d.head_offset
  pub counted : d.buffered ≡ length (pending d)
  pub inside : d.head_index ≤ length d.chunks
  pub octets : All IsByte (pending d)

Ready-zero : (cs : List (List ℕ)) → NonEmpty cs → Ready cs 0
Ready-zero [] h = (refl, h)
Ready-zero (c ∷ cs) h = (h.0, h)

shift_in-append :
    (xs : List ℕ) (v : ℕ) (ys : List ℕ) → shift_in v (xs ++ ys) ≡ shift_in (shift_in v xs) ys
unfolding shift_in
shift_in-append [] v ys = refl
shift_in-append (x ∷ xs) v ys = shift_in-append xs ((v * 256 + x) % 2 ^ 32) ys

-- A chunk's part of the front of the queue, and what is behind it.
pub take-step :
    (m n at : ℕ) (c f : List ℕ)
    → at ≤ length c
    → n ≡ min m (length c - at)
    → take m (drop at (c ++ f)) ≡ take n (drop at c) ++ take (m - n) f
take-step m n at c f h e =
    let whole = c ++ f in
    let sum : m ≡ n + (m - n) = omega arith in
    let front : take n (drop at whole) ≡ take n (drop at c) =
      rw (drop-append_le at c f h)
        (take-append_le n (drop at c) f (omega (arith, length-drop at c))) in
    let behind : take (m - n) (drop n (drop at whole)) ≡ take (m - n) f = elim (dec_lt n m) [
      | yes more ↦ ap (take (m - n)) (
          drop-drop n at whole
          ∙ ap (λ k. drop k whole) {y = length c} (omega arith)
          ∙ drop-append c f)
      | no all ↦ let none_left : m - n ≡ 0 = omega arith in rw none_left
    ] in
    ap (λ k. take k (drop at whole)) sum ∙ take-add n (m - n) (drop at whole) ∙ rw (front, behind)

pub peek_loop_lem :
    (cs : List (List ℕ)) (at left v : ℕ)
    → Ready cs at
    → left ≤ length (drop at (flatten cs))
    → peek_loop cs at left v ≡ ok (shift_in v (take left (drop at (flatten cs))))
unfolding peek_loop flatten
peek_loop_lem cs at zero v h l = unfold shift_in in refl
peek_loop_lem [] at (suc left) v h l = absurd (omega (arith, length-drop at (flatten {A = ℕ} [])))
peek_loop_lem (c ∷ cs) at (suc left) v (h, (k, ks)) l =
    let n = min (suc left) (length c - at) in
    peek_loop_lem cs 0 (suc left - n) (shift_in v (take n (drop at c))) (Ready-zero cs ks)
      (omega (arith, length-drop at (c ++ flatten cs), length-append c (flatten cs)))
    ∙ ap ok (
        sym (shift_in-append (take n (drop at c)) v _)
        ∙ ap (shift_in v) (sym (take-step (suc left) n at c (flatten cs) (omega arith) refl)))

drop-wipe : (n : ℕ) (cs : List (List ℕ)) → drop n (wipe 0 n cs) ≡ drop n cs
unfolding wipe
drop-wipe zero cs = refl
drop-wipe (suc n) [] = refl
drop-wipe (suc n) (c ∷ cs) = drop-wipe n cs

-- Dropping drained chunks changes nothing that is read later.
pub compact-rest :
    (d : FrameDecoder)
    → (rest (compact d) ≡ rest d)
      × ((compact d).head_offset ≡ d.head_offset)
      × ((compact d).buffered ≡ d.buffered)
      × ((compact d).max_payload_length ≡ d.max_payload_length)
      × (d.head_index ≤ length d.chunks → (compact d).head_index ≤ length (compact d).chunks)
unfolding compact
compact-rest d = ground (arith, drop-wipe d.head_index d.chunks, drop_all d.head_index d.chunks)

pub advance_full :
    (d : FrameDecoder) (n size : ℕ)
    → d.head_offset + n ≡ size
    → advance d n size ≡ record d { head_index = d.head_index + 1; head_offset = 0 }
unfolding advance
advance_full d n size h = ground arith

pub advance_part :
    (d : FrameDecoder) (n size : ℕ)
    → d.head_offset + n ≢ size
    → advance d n size ≡ record d { head_offset = d.head_offset + n }
unfolding advance
advance_part d n size h = ground arith

-- The head moved over `n` bytes of the chunk that it stands in.
pub advance-rest :
    (d : FrameDecoder) (n : ℕ) (c : List ℕ) (cs : List (List ℕ))
    → rest d ≡ c ∷ cs
    → drop (d.head_index + 1) d.chunks ≡ cs
    → Ready (c ∷ cs) d.head_offset
    → n ≤ length c - d.head_offset
    → Ready (rest (advance d n (length c))) (advance d n (length c)).head_offset
      × (pending (advance d n (length c)) ≡ drop n (pending d))
unfolding flatten
advance-rest d n c cs here next (h, (k, ks)) fits =
    elim (ℕ_discrete (d.head_offset + n) (length c)) [
      | yes full ↦
          rw (advance_full d n (length c) full, next, here)
            (
              Ready-zero cs ks,
              sym (
                  drop-drop n d.head_offset whole
                  ∙ ap (λ j. drop j whole) full
                  ∙ drop-append c (flatten cs)),
            )
      | no part ↦
          rw (advance_part d n (length c) part, here)
            ((omega arith, (k, ks)), sym (drop-drop n d.head_offset whole))
    ]
  where
    whole : List ℕ
    whole = c ++ flatten cs

shift_in_four :
    (bs : List ℕ) → All IsByte bs → 4 ≤ length bs → shift_in 0 (take 4 bs) ≡ uint32_be bs
unfolding shift_in
shift_in_four (a ∷ b ∷ c ∷ d ∷ bs) (p, (q, (r, (t, _)))) h = omega arith
shift_in_four _ b h = absurd (omega arith)

-- The length prefix is the big-endian number at the front, in however many chunks it lies.
pub peek_lem :
    (d : FrameDecoder)
    → IsValid d
    → 4 ≤ d.buffered
    → peek_payload_length d ≡ ok (uint32_be (pending d))
unfolding peek_payload_length
peek_lem d v h =
    peek_loop_lem (rest d) d.head_offset 4 0 v.ready (omega arith)
    ∙ ap ok (shift_in_four (pending d) v.octets (omega arith))

NonEmpty-append :
    (cs : List (List ℕ)) (c : List ℕ) → NonEmpty cs → 0 < length c → NonEmpty (cs ++ (c ∷ []))
NonEmpty-append cs c h k = All-append (λ c. 0 < length c) cs (c ∷ []) h (k, tt)

HeadFits-append :
    (cs : List (List ℕ)) (at : ℕ) (c : List ℕ)
    → HeadFits cs at
    → 0 < length c
    → HeadFits (cs ++ (c ∷ [])) at
HeadFits-append [] at c h k = omega arith
HeadFits-append (x ∷ cs) at c h k = h

HeadFits-le : (cs : List (List ℕ)) (at : ℕ) → HeadFits cs at → at ≤ length (flatten cs)
unfolding flatten
HeadFits-le [] at h = omega arith
HeadFits-le (c ∷ cs) at h = omega (arith, length-append c (flatten cs))

flatten-snoc : (cs : List (List ℕ)) (c : List ℕ) → flatten (cs ++ (c ∷ [])) ≡ flatten cs ++ c
unfolding flatten
flatten-snoc [] c = append-nil c
flatten-snoc (x ∷ cs) c = rw (flatten-snoc cs c) (sym (append_assoc x (flatten cs) c))

-- A pushed chunk goes behind what is pending.
pub retain_lem :
    (chunk : List ℕ) (d : FrameDecoder)
    → IsValid d
    → All IsByte chunk
    → IsValid (retain chunk d)
      × (pending (retain chunk d) ≡ pending d ++ chunk)
      × ((retain chunk d).max_payload_length ≡ d.max_payload_length)
unfolding retain
retain_lem [] d v b = (v, sym (append-nil (pending d)), refl)
retain_lem (b ∷ bs) d v h =
    let d' = retain (b ∷ bs) d in
    let behind : rest d' ≡ rest d ++ ((b ∷ bs) ∷ []) =
      drop-append_le d.head_index d.chunks _ v.inside in
    let joined : pending d' ≡ pending d ++ (b ∷ bs) =
      ap (λ cs. drop d.head_offset (flatten cs)) behind
      ∙ ap (drop d.head_offset) (flatten-snoc (rest d) (b ∷ bs))
      ∙ drop-append_le d.head_offset (flatten (rest d)) (b ∷ bs)
          (HeadFits-le (rest d) d.head_offset v.ready.0) in
    (
      record {
        ready = rw behind (
          HeadFits-append (rest d) d.head_offset (b ∷ bs) v.ready.0 (omega arith),
          NonEmpty-append (rest d) (b ∷ bs) v.ready.1 (omega arith),
        );
        counted = omega (arith, ap (length {A = ℕ}) joined, length-append (pending d) (b ∷ bs));
        inside = omega (arith, length-append d.chunks ((b ∷ bs) ∷ []));
        octets = rw joined (All-append IsByte (pending d) (b ∷ bs) v.octets h);
      },
      joined,
      refl,
    )

-- ===== src/Fastser/Lz4/RoundTrip.antt =====
-- lz4.go: the decoder inverts the encoding of a block.
use open_rfc_go.Base.{
  ℕ, zero, suc, pos, ◌+◌, ◌-◌, ◌*◌, ◌/◌, ◌%◌, ◌≤◌, ◌≡◌, refl, sym, ap, ap₂, ◌∙◌, subst, true, false,
  ◌&&◌, ◌||◌, List, [], ◌∷◌, ◌++◌, append-nil, length, length-append, drop, take-append,
  drop-append, length-drop, leb, ltb, ◌==◌, ok, arith,
}
use open_rfc_go.Fastser.Lz4.{
  max_decompressed, stop, next, use_match, read_match, use_literals, sequence, decompress_loop,
  check_size, decompress_block,
}
use open_rfc_go.Fastser.Lz4.Blocks.{
  Block, last, matched, nibble, chain, encode_block, rotate, repeat_match, expand, IsBlock,
}
use open_rfc_go.Fastser.Lz4.Runs.{copy_match_lem, length-rotate, read_run-chain}

use_match-repeat :
    (want offset m : ℕ) (d rest : List ℕ)
    → 1 ≤ offset
    → offset ≤ length d
    → length d + (m + 4) ≤ want
    → use_match want offset d m rest ≡ ok (next (repeat_match offset (m + 4) d) rest)
unfolding use_match
use_match-repeat want offset m d rest lo hi fits =
    let room : ltb want (length d + (m + 4)) ≡ false = ground arith in
    let back : ltb (length d) offset ≡ false = ground arith in
    rw (room, back, copy_match_lem (m + 4) (length d - offset) d (omega arith)) refl

-- Behind the literals, a match that the format can express.
read_match-repeat :
    (want offset m token : ℕ) (d rest : List ℕ)
    → token % 16 ≡ nibble m
    → 1 ≤ offset
    → offset ≤ length d
    → length d + (m + 4) ≤ want
    → read_match want token d ((offset % 256) ∷ (offset / 256) ∷ (chain m ++ rest))
      ≡ ok (next (repeat_match offset (m + 4) d) rest)
unfolding read_match
read_match-repeat want offset m token d rest low lo hi fits =
    let o : offset % 256 + offset / 256 * 256 ≡ offset = omega arith in
    let back : (ltb 0 offset && leb offset (length d)) ≡ true = ground arith in
    rw (o, back, low, read_run-chain want m rest (omega arith))
      (use_match-repeat want offset m d rest lo hi fits)

-- A round with its literals in place comes down to what follows them.
sequence-literals :
    (want token : ℕ) (dst xs rest : List ℕ)
    → token / 16 ≡ nibble (length xs)
    → length dst + length xs ≤ want
    → sequence want token dst (chain (length xs) ++ (xs ++ rest))
      ≡ read_match want token (dst ++ xs) rest
unfolding sequence use_literals
sequence-literals want token dst xs rest high fits =
    let there : (ltb (length (xs ++ rest)) (length xs) || ltb want (length dst + length xs))
        ≡ false =
      ground (arith, length-append xs rest) in
    rw (high, read_run-chain want (length xs) (xs ++ rest) (omega arith), there)
      (ap₂ (λ taken left. read_match want token (dst ++ taken) left) (take-append xs rest)
        (drop-append xs rest))

length-repeat_match :
    (offset size : ℕ) (d : List ℕ)
    → 1 ≤ offset
    → offset ≤ length d
    → length (repeat_match offset size d) ≡ length d + size
length-repeat_match offset size d lo hi = at (drop (length d - offset) d) refl
  where
    at :
        (window : List ℕ)
        → drop (length d - offset) d ≡ window
        → length (d ++ rotate size window) ≡ length d + size
    at [] e = absurd (omega (arith, length-drop (length d - offset) d, ap (length {A = ℕ}) e))
    at (x ∷ xs) e =
        length-append d (rotate size (x ∷ xs)) ∙ ap (λ n. length d + n) (length-rotate size x xs)

-- An expansion is never shorter than what it started from.
length-expand :
    (dst : List ℕ) (b : Block) → IsBlock (length dst) b → length dst ≤ length (expand dst b)
length-expand dst (last xs) v = omega (arith, length-append dst xs)
length-expand dst (matched xs offset size rest) (lo, hi, wide, least, v) =
    let joined = length-append dst xs in
    let grown : length (repeat_match offset size (dst ++ xs)) ≡ length dst + length xs + size =
      length-repeat_match offset size (dst ++ xs) lo (omega arith) ∙ ap (λ n. n + size) joined in
    let rest_grows : length (repeat_match offset size (dst ++ xs))
        ≤ length (expand (repeat_match offset size (dst ++ xs)) rest) =
      length-expand (repeat_match offset size (dst ++ xs)) rest
        (subst (λ n. IsBlock n rest) (sym grown) v) in
    omega arith

loop_stops :
    (fuel want token : ℕ) (dst bs : List ℕ) {d rest : List ℕ}
    → sequence want token dst bs ≡ ok (stop d rest)
    → decompress_loop (suc fuel) want dst (token ∷ bs) ≡ ok (d, rest)
unfolding decompress_loop
loop_stops fuel want token dst bs e = rw (decompress_loop, e)

loop_goes_on :
    (fuel want token : ℕ) (dst bs : List ℕ) {d rest : List ℕ}
    → sequence want token dst bs ≡ ok (next d rest)
    → decompress_loop (suc fuel) want dst (token ∷ bs) ≡ decompress_loop fuel want d rest
unfolding decompress_loop
loop_goes_on fuel want token dst bs e = rw (decompress_loop, e)

-- The rounds of a block's encoding.
sequence-last :
    (want : ℕ) (dst xs : List ℕ)
    → length (dst ++ xs) ≤ want
    → sequence want (nibble (length xs) * 16) dst (chain (length xs) ++ xs)
      ≡ ok (stop (dst ++ xs) [])
sequence-last want dst xs h =
    ap (λ ys. sequence want (nibble (length xs) * 16) dst (chain (length xs) ++ ys))
      (sym (append-nil xs))
    ∙ sequence-literals want (nibble (length xs) * 16) dst xs [] (omega arith)
        (omega (arith, length-append dst xs))
    ∙ unfold read_match in refl

sequence-matched :
    (want offset size : ℕ) (dst xs rest : List ℕ)
    → 1 ≤ offset
    → offset ≤ length (dst ++ xs)
    → 4 ≤ size
    → length (dst ++ xs) + size ≤ want
    → sequence want (nibble (length xs) * 16 + nibble (size - 4)) dst (
        chain (length xs) ++ (xs ++ ((offset % 256) ∷ (offset / 256) ∷ (chain (size - 4) ++ rest))))
      ≡ ok (next (repeat_match offset size (dst ++ xs)) rest)
sequence-matched want offset size dst xs rest lo hi least h =
    let token = nibble (length xs) * 16 + nibble (size - 4) in
    let whole : size - 4 + 4 ≡ size = omega arith in
    sequence-literals want token dst xs
      ((offset % 256) ∷ (offset / 256) ∷ (chain (size - 4) ++ rest)) (omega arith)
      (omega (arith, length-append dst xs))
    ∙ read_match-repeat want offset (size - 4) token (dst ++ xs) rest (omega arith) lo hi
        (omega arith)
    ∙ ap (λ n. ok (next (repeat_match offset n (dst ++ xs)) rest)) whole

-- The loop on the encoding of a block, with a round for each of its bytes.
loop-encode_block :
    (fuel want : ℕ) (dst : List ℕ) (b : Block)
    → IsBlock (length dst) b
    → length (encode_block b) ≤ fuel
    → length (expand dst b) ≤ want
    → decompress_loop fuel want dst (encode_block b) ≡ ok (expand dst b, [])
loop-encode_block zero want dst (last xs) v f h = absurd (omega arith)
loop-encode_block zero want dst (matched xs offset size rest) v f h = absurd (omega arith)
loop-encode_block (suc fuel) want dst (last xs) v f h =
    loop_stops fuel want (nibble (length xs) * 16) dst (chain (length xs) ++ xs)
      (sequence-last want dst xs h)
loop-encode_block (suc fuel) want dst (matched xs offset size rest) (lo, hi, wide, least, v) f h =
    let joined = length-append dst xs in
    let d = repeat_match offset size (dst ++ xs) in
    let grown : length d ≡ length dst + length xs + size =
      length-repeat_match offset size (dst ++ xs) lo (omega arith) ∙ ap (λ n. n + size) joined in
    let v' : IsBlock (length d) rest = subst (λ n. IsBlock n rest) (sym grown) v in
    let up : length d ≤ length (expand d rest) = length-expand d rest v' in
    let tail = (offset % 256) ∷ (offset / 256) ∷ (chain (size - 4) ++ encode_block rest) in
    loop_goes_on fuel want (nibble (length xs) * 16 + nibble (size - 4)) dst
      (chain (length xs) ++ (xs ++ tail))
      (sequence-matched want offset size dst xs (encode_block rest) lo (omega arith) least
        (omega arith))
    ∙ loop-encode_block fuel want d rest v'
        (omega (
          arith,
          length-append (chain (length xs)) (xs ++ tail),
          length-append xs tail,
          length-append (chain (size - 4)) (encode_block rest),
        ))
        h

-- The encoding of a block whose matches the format can express is decompressed, for the length of
-- what it stands for, to exactly that, and all of it is consumed.
pub decompress_block-encode_block :
    (b : Block)
    → IsBlock 0 b
    → length (expand [] b) ≤ max_decompressed
    → decompress_block (encode_block b) (pos (length (expand [] b)))
      ≡ ok (expand [] b, length (encode_block b))
unfolding decompress_block check_size
decompress_block-encode_block b v h =
    let want = length (expand [] b) in
    let small : ltb max_decompressed want ≡ false = ground arith in
    let same : (want == want) ≡ true = ground arith in
    let done : decompress_loop (length (encode_block b)) want [] (encode_block b)
        ≡ ok (expand [] b, []) =
      loop-encode_block (length (encode_block b)) want [] b v (omega arith) (omega arith) in
    rw (small, done, same) (ap (λ n. ok (expand [] b, n)) (omega arith))

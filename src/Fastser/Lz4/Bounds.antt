-- ===== src/Fastser/Lz4/Bounds.antt =====
-- lz4.go on any bytes: how a block can end, and how large its output can be.
use open_rfc_go.Base.{
  ℕ, zero, suc, ℤ, pos, negsuc, ◌+◌, ◌-◌, ◌*◌, ◌/◌, ◌%◌, ◌≤◌, ◌≡◌, refl, inl, inr, Bool, true,
  false, Bool-cases, ◌&&◌, ◌||◌, List, [], ◌∷◌, ◌++◌, length, length-append, take, drop,
  length-take, length-drop, leb, ltb, ◌==◌, if◌then◌else◌, Result, ok, err, ◌>>=◌, arith, dec_lt,
}
use open_rfc_go.Fastser.Lz4.{
  Error, corrupt_block, max_decompressed, read_chain, read_run, Round, stop, next, use_match,
  read_match, use_literals, sequence, decompress_loop, check_size, decompress_block,
}
use open_rfc_go.Fastser.Lz4.Blocks.{rotate}
use open_rfc_go.Fastser.Lz4.Runs.{copy_match_lem, length-rotate}

-- A run that was read leaves at most `n` bytes.
abbrev Leaves : ℕ → Result Error (ℕ × List ℕ) → Type 0
Leaves n (err e) = e ≡ corrupt_block
Leaves n (ok (k, rest)) = length rest ≤ n

-- A round ends the block, with nothing left, or leaves at most `n` bytes; its output fits.
abbrev pub Settles : ℕ → ℕ → Result Error Round → Type 0
Settles want n (err e) = e ≡ corrupt_block
Settles want n (ok (stop d rest)) = (rest ≡ []) × (length d ≤ want)
Settles want n (ok (next d rest)) = (length rest ≤ n) × (length d ≤ want)

abbrev Ends : ℕ → Result Error (List ℕ × List ℕ) → Type 0
Ends want (err e) = e ≡ corrupt_block
Ends want (ok (d, rest)) = (rest ≡ []) × (length d ≤ want)

read_chain-Leaves : (want n : ℕ) (bs : List ℕ) → Leaves (length bs) (read_chain want n bs)
unfolding read_chain
read_chain-Leaves want n [] = refl
read_chain-Leaves want n (b ∷ bs) =
    one (read_chain want (n + b) bs) (read_chain-Leaves want (n + b) bs) (b == 255)
      (ltb want (n + b))
  where
    one :
        (more : Result Error (ℕ × List ℕ))
        → Leaves (length bs) more
        → (goes_on over : Bool)
        → Leaves
            (suc (length bs))
            (if goes_on then (if over then err corrupt_block else more) else ok (n + b, bs))
    one more h false over = omega arith
    one more h true true = refl
    one (err e) h true false = h
    one (ok (k, rest)) h true false = omega arith

read_run-Leaves : (want n : ℕ) (bs : List ℕ) → Leaves (length bs) (read_run want n bs)
unfolding read_run
read_run-Leaves want n bs = at (n == 15)
  where
    at : (full : Bool) → Leaves (length bs) (if full then read_chain want n bs else ok (n, bs))
    at true = read_chain-Leaves want n bs
    at false = omega arith

length-rotate_some : (n : ℕ) (xs : List ℕ) → 1 ≤ length xs → length (rotate n xs) ≡ n
length-rotate_some n [] h = absurd (omega arith)
length-rotate_some n (x ∷ xs) h = length-rotate n x xs

use_match-Settles :
    (want offset : ℕ) (d : List ℕ) (m : ℕ) (rest : List ℕ) (n : ℕ)
    → 1 ≤ offset
    → offset ≤ length d
    → length rest ≤ n
    → Settles want n (use_match want offset d m rest)
unfolding use_match
use_match-Settles want offset d m rest n lo hi h = elim (dec_lt want (length d + (m + 4))) [
  | yes over ↦ ground arith
  | no fits ↦
      let start = length d - offset in
      let room : ltb want (length d + (m + 4)) ≡ false = ground arith in
      let back : ltb (length d) offset ≡ false = ground arith in
      let long = length-append d (rotate (m + 4) (drop start d)) in
      let copied = length-rotate_some (m + 4) (drop start d) (omega (arith, length-drop start d)) in
      rw (room, back, copy_match_lem (m + 4) start d (omega arith)) (h, omega (arith, long, copied))
]

after_run :
    (want m n : ℕ) (r : Result Error (ℕ × List ℕ)) (f : ℕ × List ℕ → Result Error Round)
    → m ≤ n
    → Leaves m r
    → ((k : ℕ) (rest : List ℕ) → length rest ≤ n → Settles want n (f (k, rest)))
    → Settles want n (r >>= f)
after_run want m n (err e) f le h next_one = h
after_run want m n (ok (k, rest)) f le h next_one = next_one k rest (omega arith)

read_match-Settles :
    (want token : ℕ) (d bs : List ℕ)
    → length d ≤ want
    → Settles want (length bs) (read_match want token d bs)
unfolding read_match
read_match-Settles want token d [] h = (refl, h)
read_match-Settles want token d (a ∷ []) h = refl
read_match-Settles want token d (lo ∷ hi ∷ bs) h =
    elim (Bool-cases (ltb 0 (lo + hi * 256) && leb (lo + hi * 256) (length d))) [
      | inl back ↦ rw back (
          after_run want (length bs) (suc (suc (length bs))) (read_run want (token % 16) bs) _
            (omega arith) (read_run-Leaves want (token % 16) bs)
            λ k rest le.
              use_match-Settles want (lo + hi * 256) d k rest (suc (suc (length bs))) (ground arith)
                (ground arith) le)
      | inr wrong ↦ rw wrong refl
    ]

widen : (want m n : ℕ) (r : Result Error Round) → m ≤ n → Settles want m r → Settles want n r
widen want m n (err e) le h = h
widen want m n (ok (stop d rest)) le h = h
widen want m n (ok (next d rest)) le (left, fits) = (omega arith, fits)

use_literals-Settles :
    (want token : ℕ) (dst : List ℕ) (k : ℕ) (bs : List ℕ) (n : ℕ)
    → length bs ≤ n
    → Settles want n (use_literals want token dst k bs)
unfolding use_literals
use_literals-Settles want token dst k bs n h =
    elim (Bool-cases (ltb (length bs) k || ltb want (length dst + k))) [
      | inl over ↦ rw over refl
      | inr fits ↦
          let room : length dst + k ≤ want = ground arith in
          rw fits (
            widen want (length (drop k bs)) n (read_match want token (dst ++ take k bs) (drop k bs))
              (omega (arith, length-drop k bs))
              (read_match-Settles want token (dst ++ take k bs) (drop k bs)
                (omega (arith, length-append dst (take k bs), length-take k bs))))
    ]

-- A round on any bytes reports a corrupt block; or it ends the block with no byte left; or it leaves
-- no more bytes than stood behind its token. Its output is never larger than what was declared.
pub sequence-Settles :
    (want token : ℕ) (dst bs : List ℕ) → Settles want (length bs) (sequence want token dst bs)
unfolding sequence
sequence-Settles want token dst bs =
    after_run want (length bs) (length bs) (read_run want (token / 16) bs) _ (omega arith)
      (read_run-Leaves want (token / 16) bs)
      λ k rest le. use_literals-Settles want token dst k rest (length bs) le

loop-Ends :
    (fuel want : ℕ) (dst src : List ℕ)
    → length src ≤ fuel
    → length dst ≤ want
    → Ends want (decompress_loop fuel want dst src)
unfolding decompress_loop
loop-Ends fuel want dst [] h fits = (refl, fits)
loop-Ends zero want dst (token ∷ bs) h fits = absurd (omega arith)
loop-Ends (suc fuel) want dst (token ∷ bs) h fits =
    at (sequence want token dst bs) (sequence-Settles want token dst bs) (loop-Ends fuel want)
  where
    at :
        (r : Result Error Round)
        → Settles want (length bs) r
        → ((d rest : List ℕ)
            → length rest ≤ fuel
            → length d ≤ want
            → Ends want (decompress_loop fuel want d rest))
        → Ends want (elim r [
          | err e ↦ err e
          | ok (stop d rest) ↦ ok (d, rest)
          | ok (next d rest) ↦ decompress_loop fuel want d rest
        ])
    at (err e) s ih = s
    at (ok (stop d rest)) s ih = s
    at (ok (next d rest)) (left, small) ih = ih d rest (omega arith) small

-- The ways in which `decompress_block` can end.
abbrev pub IsExact : List ℕ → ℤ → Result Error (List ℕ × ℕ) → Type 0
IsExact src want (err e) = e ≡ corrupt_block
IsExact src want (ok (out, used)) =
    (pos (length out) ≡ want) × (length out ≤ max_decompressed) × (used ≡ length src)

checked_size :
    (src : List ℕ) (want : ℕ) (r : Result Error (List ℕ × List ℕ))
    → want ≤ max_decompressed
    → Ends want r
    → IsExact src (pos want) (r >>= check_size src want)
unfolding check_size
checked_size src want (err e) small h = h
checked_size src want (ok (d, rest)) small (none_left, fits) =
    elim (Bool-cases (length d == want)) [
      | inl same ↦ rw same (ground arith, ground arith, ground arith)
      | inr other ↦ rw other refl
    ]

-- On any bytes and any declared size the decoder returns, and no match reads outside the output: a
-- corrupt block is reported, or the output has exactly the declared size, at most the largest
-- allowed, and all bytes are consumed.
pub decompress_block-IsExact :
    (src : List ℕ) (want : ℤ) → IsExact src want (decompress_block src want)
unfolding decompress_block check_size
decompress_block-IsExact src (negsuc n) = refl
decompress_block-IsExact src (pos want) = elim (Bool-cases (ltb max_decompressed want)) [
  | inl over ↦ rw over refl
  | inr fits ↦ rw fits (
      checked_size src want (decompress_loop (length src) want [] src) (ground arith)
        (loop-Ends (length src) want [] src (omega arith) (omega arith)))
]

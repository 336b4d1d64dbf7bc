-- ===== src/Fastser/Lz4.antt =====
-- internal/fastser/lz4.go: the LZ4 block decoder and the search for compressed blocks.
-- A position i in src is kept as src[i:], the bytes that are still to be read.
pub mod Blocks
pub mod Runs
pub mod RoundTrip
pub mod Bounds
pub mod Locate
pub mod Decoded
pub mod Search
pub mod Examples
use open_rfc_go.Base.{
  ℕ, zero, suc, ℤ, pos, negsuc, ◌+◌, ◌-◌, ◌*◌, ◌/◌, ◌%◌, ◌^◌, Bool, true, false, ◌&&◌, ◌||◌, Option,
  none, some, List, [], ◌∷◌, ◌++◌, length, take, drop, get_elem?, leb, ltb, ◌==◌, if◌then◌else◌,
  Result, ok, err, guard, ◌>>=◌, ◌>>◌,
}
use open_rfc_go.Base.Bytes.{uint32_le}

-- Two are no Go errors: `out_of_fuel`, where a loop of the model ran out of rounds, and
-- `index_out_of_range`, Go's panic.
pub data Error : Type 0 where
  corrupt_block out_of_fuel index_out_of_range : Error

abbrev pub max_decompressed : ℕ
max_decompressed = 2 ^ 24

-- The 255-chain behind a nibble of 15.
unfoldable pub read_chain : ℕ → ℕ → List ℕ → Result Error (ℕ × List ℕ)
read_chain want n [] = err corrupt_block
read_chain want n (b ∷ bs) =
    let more = read_chain want (n + b) bs in
    if b == 255 then (if ltb want (n + b) then err corrupt_block else more) else ok (n + b, bs)

unfoldable pub read_run : ℕ → ℕ → List ℕ → Result Error (ℕ × List ℕ)
read_run want nibble bs = if nibble == 15 then read_chain want nibble bs else ok (nibble, bs)

-- `for n := 0; n < matchLen; n++`, with start + n as the second argument.
unfoldable pub copy_match : ℕ → ℕ → List ℕ → Result Error (List ℕ)
copy_match zero start dst = ok dst
copy_match (suc n) start dst = elim (get_elem? dst start) [
  | none ↦ err index_out_of_range
  | some b ↦ copy_match n (start + 1) (dst ++ (b ∷ []))
]

-- How a round ends: `break`, or the next round.
pub data Round : Type 0 where
  stop next : List ℕ → List ℕ → Round

-- matchLen is `m + 4`, at least one byte, so a match that would start before dst panics.
unfoldable pub use_match : ℕ → ℕ → List ℕ → ℕ → List ℕ → Result Error Round
use_match want offset dst m rest =
    if ltb want (length dst + (m + 4))
    then err corrupt_block
    else if ltb (length dst) offset
    then err index_out_of_range
    else copy_match (m + 4) (length dst - offset) dst >>= λ out. ok (next out rest)

-- The round behind its literals.
unfoldable pub read_match : ℕ → ℕ → List ℕ → List ℕ → Result Error Round
read_match want token dst [] = ok (stop dst [])
read_match want token dst (_ ∷ []) = err corrupt_block
read_match want token dst (lo ∷ hi ∷ bs) = do
  let offset : ℕ = lo + hi * 256
  guard (ltb 0 offset && leb offset (length dst)) corrupt_block
  m ← read_run want (token % 16) bs
  use_match want offset dst m.0 m.1

unfoldable pub use_literals : ℕ → ℕ → List ℕ → ℕ → List ℕ → Result Error Round
use_literals want token dst n bs =
    if ltb (length bs) n || ltb want (length dst + n)
    then err corrupt_block
    else read_match want token (dst ++ take n bs) (drop n bs)

-- One round, behind its token.
unfoldable pub sequence : ℕ → ℕ → List ℕ → List ℕ → Result Error Round
sequence want token dst bs = do
  n ← read_run want (token / 16) bs
  use_literals want token dst n.0 n.1

-- The result and the bytes that were not read.
unfoldable pub decompress_loop : ℕ → ℕ → List ℕ → List ℕ → Result Error (List ℕ × List ℕ)
decompress_loop fuel want dst [] = ok (dst, [])
decompress_loop zero want dst (token ∷ bs) = err out_of_fuel
decompress_loop (suc fuel) want dst (token ∷ bs) = elim (sequence want token dst bs) [
  | err e ↦ err e
  | ok (stop dst' rest) ↦ ok (dst', rest)
  | ok (next dst' rest) ↦ decompress_loop fuel want dst' rest
]

-- `len(dst) != want`, and the bytes consumed.
unfoldable pub check_size : List ℕ → ℕ → List ℕ × List ℕ → Result Error (List ℕ × ℕ)
check_size src want (dst, rest) =
    if length dst == want then ok (dst, length src - length rest) else err corrupt_block

-- Each round reads its token, so the bytes of src bound the rounds.
unfoldable pub decompress_block : List ℕ → ℤ → Result Error (List ℕ × ℕ)
decompress_block src (negsuc n) = err corrupt_block
decompress_block src (pos want) =
    if ltb max_decompressed want
    then err corrupt_block
    else decompress_loop (length src) want [] src >>= check_size src want

abbrev pub compression_header_len : ℕ
compression_header_len = 8

pub record Compressed : Type 0 where
  pub offset : ℕ
  pub compressed_size : ℕ
  pub uncompressed_size : ℕ
  pub bytes : List ℕ

-- The block of `compressed` bytes at `start`, with the position behind it.
unfoldable pub take_block : ℕ → ℕ → ℕ → Result Error (List ℕ × ℕ) → Option (Compressed × ℕ)
take_block off uncompressed compressed (err e) = none
take_block off uncompressed compressed (ok (out, used)) =
    if used == compressed
    then some (
      record {
        offset = off;
        compressed_size = compressed;
        uncompressed_size = uncompressed;
        bytes = out;
      },
      off + compression_header_len + compressed,
    )
    else none

unfoldable pub decode_sized : List ℕ → ℕ → ℕ → ℕ → Option (Compressed × ℕ)
decode_sized payload off uncompressed compressed =
    if compressed == 0
      || uncompressed == 0
      || ltb uncompressed compressed
      || ltb max_decompressed uncompressed
    then none
    else if ltb (length payload) (off + compression_header_len + compressed)
    then none
    else take_block off uncompressed compressed (
        decompress_block (take compressed (drop (off + compression_header_len) payload))
          (pos uncompressed))

-- `none` is ok = false, where the position stays.
unfoldable pub decode_compressed_at : List ℕ → ℤ → Option (Compressed × ℕ)
decode_compressed_at payload (negsuc n) = none
decode_compressed_at payload (pos off) =
    if ltb (length payload) (off + compression_header_len)
    then none
    else decode_sized payload off (uint32_le (drop off payload))
        (uint32_le (drop (off + 4) payload))

-- `out` is what was found; each round moves on by one byte at least.
unfoldable pub find_loop : ℕ → List ℕ → ℕ → List Compressed → Result Error (List Compressed)
find_loop zero payload i out =
    if ltb (i + compression_header_len) (length payload) then err out_of_fuel else ok out
find_loop (suc fuel) payload i out = elim (ltb (i + compression_header_len) (length payload)) [
  | false ↦ ok out
  | true ↦ elim (decode_compressed_at payload (pos i)) [
    | none ↦ find_loop fuel payload (i + 1) out
    | some (c, at) ↦ find_loop fuel payload at (out ++ (c ∷ []))
  ]
]

unfoldable pub find_compressed : List ℕ → Result Error (List Compressed)
find_compressed payload = find_loop (length payload) payload 0 []

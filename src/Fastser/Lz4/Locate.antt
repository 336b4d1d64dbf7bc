-- ===== src/Fastser/Lz4/Locate.antt =====
-- lz4.go: blocks behind their headers, and the search for them.
use open_rfc_go.Base.{
  ℕ, pos, ◌+◌, ◌^◌, ◌≤◌, ◌<◌, ◌≡◌, refl, sym, ap, ◌∙◌, true, false, some, ◌||◌, List, [], ◌++◌,
  length, length-append, take, drop, take-append, drop-append, drop-drop, ltb, ◌==◌, arith,
}
use open_rfc_go.Base.Bytes.{put_uint32_le, uint32_le, uint32_le-put}
use open_rfc_go.Fastser.Lz4.{
  max_decompressed, Compressed, take_block, decode_sized, decode_compressed_at,
}
use open_rfc_go.Fastser.Lz4.Blocks.{Block, encode_block, expand, IsBlock, last, matched}
use open_rfc_go.Fastser.Lz4.RoundTrip.{decompress_block-encode_block}

-- The two sizes and the block.
abbrev pub encode_compressed : Block → List ℕ
encode_compressed b =
    put_uint32_le (length (expand [] b))
    ++ (put_uint32_le (length (encode_block b)) ++ encode_block b)

abbrev pub located : ℕ → Block → Compressed
located off b = record {
  offset = off;
  compressed_size = length (encode_block b);
  uncompressed_size = length (expand [] b);
  bytes = expand [] b;
}

decode_sized-encode_block :
    (payload : List ℕ) (off : ℕ) (b : Block) (behind : List ℕ)
    → IsBlock 0 b
    → 1 ≤ length (encode_block b)
    → length (encode_block b) ≤ length (expand [] b)
    → length (expand [] b) ≤ max_decompressed
    → off + 8 + length (encode_block b) ≤ length payload
    → drop (off + 8) payload ≡ encode_block b ++ behind
    → decode_sized payload off (length (expand [] b)) (length (encode_block b))
      ≡ some (located off b, off + 8 + length (encode_block b))
unfolding decode_sized take_block
decode_sized-encode_block payload off b behind v some_bytes smaller small there block =
    let want = length (expand [] b) in
    let size = length (encode_block b) in
    let sizes : (size == 0 || want == 0 || ltb want size || ltb max_decompressed want) ≡ false =
      ground arith in
    let room : ltb (length payload) (off + 8 + size) ≡ false = ground arith in
    let cut : take size (drop (off + 8) payload) ≡ encode_block b =
      ap (take size) block ∙ take-append (encode_block b) behind in
    let all : (size == size) ≡ true = ground arith in
    rw (sizes, room, cut, decompress_block-encode_block b v small, all) refl

-- A header's sizes are read back.
decode_compressed_at-sizes :
    (payload : List ℕ) (off want size : ℕ) (tail : List ℕ)
    → drop off payload ≡ put_uint32_le want ++ (put_uint32_le size ++ tail)
    → want < 2 ^ 32
    → size < 2 ^ 32
    → off + 8 ≤ length payload
    → decode_compressed_at payload (pos off) ≡ decode_sized payload off want size
unfolding decode_compressed_at
decode_compressed_at-sizes payload off want size tail front w c there =
    let room : ltb (length payload) (off + 8) ≡ false = ground arith in
    let first : uint32_le (drop off payload) ≡ want =
      ap uint32_le front ∙ uint32_le-put want (put_uint32_le size ++ tail) w in
    let second : uint32_le (drop (off + 4) payload) ≡ size =
      ap uint32_le (sym (drop-drop 4 off payload) ∙ ap (drop 4) front)
      ∙ uint32_le-put size tail c in
    rw (room, first, second) refl

encode_block-some : (b : Block) → 1 ≤ length (encode_block b)
encode_block-some (last xs) = omega arith
encode_block-some (matched xs offset size rest) = omega arith

-- A compressed block is found at its header, wherever that stands, if it is no longer than what it
-- stands for and that is at most the largest size allowed.
pub decode_compressed_at-encode :
    (before behind : List ℕ) (b : Block)
    → IsBlock 0 b
    → length (encode_block b) ≤ length (expand [] b)
    → length (expand [] b) ≤ max_decompressed
    → decode_compressed_at (before ++ (encode_compressed b ++ behind)) (pos (length before))
      ≡ some (located (length before) b, length before + 8 + length (encode_block b))
decode_compressed_at-encode before behind b v smaller small =
    let want = length (expand [] b) in
    let size = length (encode_block b) in
    let tail = encode_block b ++ behind in
    let headed = put_uint32_le want ++ (put_uint32_le size ++ tail) in
    let payload = before ++ headed in
    let front : drop (length before) payload ≡ headed = drop-append before headed in
    let long : length payload ≡ length before + (8 + (size + length behind)) =
      omega (arith, length-append before headed, length-append (encode_block b) behind) in
    decode_compressed_at-sizes payload (length before) want size tail front (omega arith)
      (omega arith) (omega arith)
    ∙ decode_sized-encode_block payload (length before) b behind v (encode_block-some b) smaller
        small (omega arith) (sym (drop-drop 8 (length before) payload) ∙ ap (drop 8) front)

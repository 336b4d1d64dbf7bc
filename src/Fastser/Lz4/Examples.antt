-- ===== src/Fastser/Lz4/Examples.antt =====
-- Runs of lz4.go, and its theorems at concrete blocks.
use open_rfc_go.Base.{pos, ◌≡◌, refl, some, List, [], ◌∷◌, ◌++◌, arith, ok, err}
use open_rfc_go.Fastser.Lz4.{
  corrupt_block, Compressed, decompress_block, decompress_loop, sequence, use_literals, read_match,
  read_run, copy_match, decode_compressed_at, find_compressed,
}
use open_rfc_go.Fastser.Lz4.Blocks.{Block, last, matched, encode_block, expand}
use open_rfc_go.Fastser.Lz4.RoundTrip.{decompress_block-encode_block}
use open_rfc_go.Fastser.Lz4.Runs.{copy_match_lem}
use open_rfc_go.Fastser.Lz4.Bounds.{IsExact, decompress_block-IsExact, Settles, sequence-Settles}
use open_rfc_go.Fastser.Lz4.Locate.{encode_compressed, located, decode_compressed_at-encode}
use open_rfc_go.Fastser.Lz4.Decoded.{IsDecoded, decode_compressed_at-IsDecoded}
use open_rfc_go.Fastser.Lz4.Search.{Scanned, find_compressed-Scanned}

-- Two literals, a match that overlaps itself, and one more literal.
abbrev block : Block
block = matched (97 ∷ 98 ∷ []) 2 20 (last (99 ∷ []))

-- The block's bytes; a zero offset is refused.
block_bytes : encode_block block ≡ 47 ∷ 97 ∷ 98 ∷ 2 ∷ 0 ∷ 1 ∷ 16 ∷ 99 ∷ []
block_bytes = refl

zero_offset_refused : decompress_block (31 ∷ 97 ∷ 0 ∷ 0 ∷ 0 ∷ []) (pos 20) ≡ err corrupt_block
unfolding decompress_block decompress_loop sequence use_literals read_match read_run
zero_offset_refused = refl

copy_match_lem_example : copy_match 5 1 (7 ∷ 8 ∷ 9 ∷ []) ≡ ok (7 ∷ 8 ∷ 9 ∷ 8 ∷ 9 ∷ 8 ∷ 9 ∷ 8 ∷ [])
copy_match_lem_example = copy_match_lem 5 1 (7 ∷ 8 ∷ 9 ∷ []) (omega arith)

decompress_block-encode_block_example :
    decompress_block (47 ∷ 97 ∷ 98 ∷ 2 ∷ 0 ∷ 1 ∷ 16 ∷ 99 ∷ []) (pos 23) ≡ ok (expand [] block, 8)
decompress_block-encode_block_example =
    decompress_block-encode_block block (omega arith) (omega arith)

decompress_block-IsExact_example :
    IsExact (31 ∷ 97 ∷ []) (pos 9) (decompress_block (31 ∷ 97 ∷ []) (pos 9))
decompress_block-IsExact_example = decompress_block-IsExact (31 ∷ 97 ∷ []) (pos 9)

sequence-Settles_example : Settles 9 2 (sequence 9 16 [] (97 ∷ 98 ∷ []))
sequence-Settles_example = sequence-Settles 9 16 [] (97 ∷ 98 ∷ [])

decode_compressed_at-encode_example :
    decode_compressed_at (1 ∷ 2 ∷ (encode_compressed block ++ (3 ∷ []))) (pos 2)
    ≡ some (located 2 block, 18)
decode_compressed_at-encode_example =
    decode_compressed_at-encode (1 ∷ 2 ∷ []) (3 ∷ []) block (omega arith) (omega arith)
      (omega arith)

find_compressed-Scanned_example :
    (cs : List Compressed) × (find_compressed (encode_compressed block) ≡ ok cs)
    × Scanned (encode_compressed block) 0 cs
find_compressed-Scanned_example = find_compressed-Scanned (encode_compressed block)

decode_compressed_at-IsDecoded_example :
    IsDecoded (encode_compressed block) 0 (decode_compressed_at (encode_compressed block) (pos 0))
decode_compressed_at-IsDecoded_example = decode_compressed_at-IsDecoded (encode_compressed block) 0

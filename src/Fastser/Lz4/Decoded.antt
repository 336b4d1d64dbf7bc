-- ===== src/Fastser/Lz4/Decoded.antt =====
-- lz4.go: what DecodeCompressedAt finds.
use open_rfc_go.Base.{
  ℕ, pos, ◌+◌, ◌≤◌, ◌≡◌, refl, ap, ◌∙◌, inl, inr, Bool-cases, Option, none, some, ◌||◌, List,
  length, take, drop, ltb, ◌==◌, Result, ok, err, arith,
}
use open_rfc_go.Base.Bytes.{uint32_le}
use open_rfc_go.Fastser.Lz4.{
  Error, max_decompressed, decompress_block, Compressed, take_block, decode_sized,
  decode_compressed_at,
}
use open_rfc_go.Fastser.Lz4.Bounds.{IsExact, decompress_block-IsExact}

-- What a block that was decoded at a position is, and the position behind it.
pub record Decoded (payload : List ℕ) (off : ℕ) (c : Compressed) (at : ℕ) : Type 0 where
  pub same : c.offset ≡ off
  pub moved : at ≡ off + 8 + c.compressed_size
  pub inside : at ≤ length payload
  pub some_bytes : 1 ≤ c.compressed_size
  pub exact : length c.bytes ≡ c.uncompressed_size
  pub small : c.uncompressed_size ≤ max_decompressed
  pub first : c.uncompressed_size ≡ uint32_le (drop off payload)
  pub second : c.compressed_size ≡ uint32_le (drop (off + 4) payload)
  pub block :
      decompress_block (take c.compressed_size (drop (off + 8) payload)) (pos c.uncompressed_size)
      ≡ ok (c.bytes, c.compressed_size)

abbrev pub IsDecoded : List ℕ → ℕ → Option (Compressed × ℕ) → Type 0
IsDecoded payload off none = Unit
IsDecoded payload off (some (c, at)) = Decoded payload off c at

module _ (payload : List ℕ) (off want size : ℕ) (first : want ≡ uint32_le (drop off payload))
    (second : size ≡ uint32_le (drop (off + 4) payload)) where
  take_block-IsDecoded :
      (r : Result Error (List ℕ × ℕ))
      → off + 8 + size ≤ length payload
      → 1 ≤ size
      → decompress_block (take size (drop (off + 8) payload)) (pos want) ≡ r
      → IsExact (take size (drop (off + 8) payload)) (pos want) r
      → IsDecoded payload off (take_block off want size r)
  unfolding take_block
  take_block-IsDecoded (err e) there some_bytes run h = tt
  take_block-IsDecoded (ok (out, used)) there some_bytes run (exact, small, all) =
      elim (Bool-cases (used == size)) [
        | inl same ↦
            let consumed : used ≡ size = ground arith in
            rw same (record {
              same = refl;
              moved = refl;
              inside = there;
              some_bytes = some_bytes;
              exact = ground arith;
              small = ground arith;
              first = first;
              second = second;
              block = run ∙ ap (λ n. ok (out, n)) consumed;
            })
        | inr other ↦ rw other tt
      ]

  decode_sized-IsDecoded : IsDecoded payload off (decode_sized payload off want size)
  unfolding decode_sized
  decode_sized-IsDecoded =
      elim (Bool-cases (size == 0 || want == 0 || ltb want size || ltb max_decompressed want)) [
        | inl bad ↦ rw bad tt
        | inr good ↦ elim (Bool-cases (ltb (length payload) (off + 8 + size))) [
          | inl over ↦ rw (good, over) tt
          | inr there ↦
              let block = take size (drop (off + 8) payload) in
              rw (good, there)
                (take_block-IsDecoded (decompress_block block (pos want)) (ground arith)
                  (ground arith) refl (decompress_block-IsExact block (pos want)))
        ]
      ]

-- Whatever the bytes, a block that is decoded lies in the payload and is not empty; its sizes are
-- those that its header's bytes declare, the output has the size declared, which is at most the
-- largest allowed, and is what the decoder makes of exactly the bytes behind the header.
pub decode_compressed_at-IsDecoded :
    (payload : List ℕ) (off : ℕ) → IsDecoded payload off (decode_compressed_at payload (pos off))
unfolding decode_compressed_at
decode_compressed_at-IsDecoded payload off = elim (Bool-cases (ltb (length payload) (off + 8))) [
  | inl over ↦ rw over tt
  | inr there ↦ rw there (decode_sized-IsDecoded payload off _ _ refl refl)
]

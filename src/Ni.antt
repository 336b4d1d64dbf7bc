-- ===== src/Ni.antt =====
-- ni/frame.go: length-prefixed frames, and their separation from a chunked stream.
pub mod Stream
pub mod Queue
pub mod Consume
pub mod Push
pub mod Chunking
pub mod Examples
use open_rfc_go.Base.{
  ℕ, zero, suc, ℤ, pos, negsuc, ◌+◌, ◌-◌, ◌*◌, ◌%◌, ◌^◌, min, Bool, true, false, ◌&&◌, Option, none,
  some, List, [], ◌∷◌, ◌++◌, length, take, drop, get_elem?, leb, ltb, ◌==◌, if◌then◌else◌, Result,
  ok, err,
}
use open_rfc_go.Base.Bytes.{put_uint32_be}
use open_rfc_go.Base.Stateful.{Method, bind, pure, ◌>>=◌, ◌>>◌}

abbrev pub length_bytes : ℕ
length_bytes = 4

abbrev pub default_max_payload_length : ℕ
default_max_payload_length = 256 * 1024 * 1024

-- `out_of_fuel` is no Go error: a loop of the model ran out of rounds.
pub data Error : Type 0 where
  payload_too_long truncated_stream : ℕ → Error
  payload_too_large : ℕ → ℕ → Error
  negative_limit : ℤ → Error
  inconsistent_queue out_of_fuel : Error

unfoldable pub encode_frame : List ℕ → Result Error (List ℕ)
encode_frame payload =
    if ltb (2 ^ 32 - 1) (length payload)
    then err (payload_too_long (length payload))
    else ok (put_uint32_be (length payload) ++ payload)

pub record FrameDecoder : Type 0 where
  pub max_payload_length : ℕ
  pub chunks : List (List ℕ)
  pub head_index : ℕ
  pub head_offset : ℕ
  pub buffered : ℕ

unfoldable pub new_frame_decoder : ℤ → Result Error FrameDecoder
new_frame_decoder (negsuc n) = err (negative_limit (negsuc n))
new_frame_decoder (pos n) =
    ok (record {
      max_payload_length = n;
      chunks = [];
      head_index = 0;
      head_offset = 0;
      buffered = 0;
    })

-- Zeroed and released chunks are nil.
unfoldable pub wipe : ℕ → ℕ → List (List ℕ) → List (List ℕ)
wipe from zero cs = cs
wipe from (suc to) [] = []
wipe zero (suc to) (c ∷ cs) = [] ∷ wipe zero to cs
wipe (suc from) (suc to) (c ∷ cs) = c ∷ wipe from to cs

unfoldable pub reset : FrameDecoder → FrameDecoder
reset d = record d { chunks = []; head_index = 0; head_offset = 0; buffered = 0 }

-- `for _, b := range bs { value = value<<8 | uint32(b) }`
unfoldable pub shift_in : ℕ → List ℕ → ℕ
shift_in value [] = value
shift_in value (b ∷ bs) = shift_in ((value * 256 + b) % 2 ^ 32) bs

-- The list is what stands from `chunkIndex` on.
unfoldable pub peek_loop : List (List ℕ) → ℕ → ℕ → ℕ → Result Error ℕ
peek_loop cs at zero value = ok value
peek_loop [] at (suc left) value = err inconsistent_queue
peek_loop (c ∷ cs) at (suc left) value =
    let n = min (suc left) (length c - at) in
    peek_loop cs 0 (suc left - n) (shift_in value (take n (drop at c)))

unfoldable pub peek_payload_length : FrameDecoder → Result Error ℕ
peek_payload_length d = peek_loop (drop d.head_index d.chunks) d.head_offset length_bytes 0

unfoldable pub compact : FrameDecoder → FrameDecoder
compact d =
    if d.head_index == length d.chunks
    then record d { chunks = []; head_index = 0 }
    else if leb 64 d.head_index && leb (length d.chunks) (d.head_index * 2)
    then record d { chunks = drop d.head_index (wipe 0 d.head_index d.chunks); head_index = 0 }
    else d

-- The head behind `n` more bytes of its chunk, which has `size`.
unfoldable pub advance : FrameDecoder → ℕ → ℕ → FrameDecoder
advance d n size =
    if d.head_offset + n == size
    then record d { head_index = d.head_index + 1; head_offset = 0 }
    else record d { head_offset = d.head_offset + n }

-- `left` is length - written. Each round but the last drains a chunk.
unfoldable pub consume_loop : ℕ → ℕ → List ℕ → Method FrameDecoder Error (List ℕ)
consume_loop fuel zero result d = (ok result, d)
consume_loop zero (suc left) result d = (err out_of_fuel, d)
consume_loop (suc fuel) (suc left) result d = elim (get_elem? d.chunks d.head_index) [
  | none ↦ (err inconsistent_queue, d)
  | some current ↦
      let n = min (suc left) (length current - d.head_offset) in
      consume_loop fuel (suc left - n) (result ++ take n (drop d.head_offset current))
        (advance d n (length current))
]

unfoldable pub settle : ℕ → List ℕ → Method FrameDecoder Error (List ℕ)
settle n result d = (ok result, compact (record d { buffered = d.buffered - n }))

unfoldable pub consume : ℕ → Method FrameDecoder Error (List ℕ)
consume n d =
    if ltb d.buffered n
    then (err inconsistent_queue, d)
    else bind (consume_loop (suc (length d.chunks)) n [] d) (settle n)

unfoldable pub retain : List ℕ → FrameDecoder → FrameDecoder
retain [] d = d
retain (b ∷ bs) d = record d {
  chunks = d.chunks ++ ((b ∷ bs) ∷ []);
  buffered = d.buffered + length (b ∷ bs);
}

-- The loop of Push; `payloads` are those that it has found.
unfoldable pub push_loop : ℕ → List (List ℕ) → Method FrameDecoder Error (List (List ℕ))
push_loop zero payloads d = (err out_of_fuel, d)
push_loop (suc fuel) payloads d = elim (leb length_bytes d.buffered) [
  | false ↦ (ok payloads, d)
  | true ↦ elim (peek_payload_length d) [
    | err e ↦ (err e, d)
    | ok advertised ↦ elim (ltb d.max_payload_length advertised) [
      | true ↦ (err (payload_too_large advertised d.max_payload_length), d)
      | false ↦ elim (ltb d.buffered (length_bytes + advertised)) [
        | true ↦ (ok payloads, d)
        | false ↦ bind (consume length_bytes d) λ _ d₁.
            bind (consume advertised d₁)
              λ payload d₂. push_loop fuel (payloads ++ (payload ∷ [])) d₂
      ]
    ]
  ]
]

-- Each round takes four bytes at least, so the bytes buffered bound the rounds.
unfoldable pub push : List ℕ → Method FrameDecoder Error (List (List ℕ))
push chunk d = let d' = retain chunk d in push_loop (suc d'.buffered) [] d'

unfoldable pub finish : FrameDecoder → Result Error (Unit {0})
finish d = if d.buffered == 0 then ok tt else err (truncated_stream d.buffered)

-- The chunks that a connection reads, one Push each.
unfoldable pub push_all : List (List ℕ) → Method FrameDecoder Error (List (List ℕ))
push_all [] = pure []
push_all (c ∷ cs) = do ps ← push c; qs ← push_all cs; pure (ps ++ qs)

-- The stream of frames that a sender writes.
unfoldable pub encode_stream : List (List ℕ) → Result Error (List ℕ)
encode_stream [] = ok []
encode_stream (p ∷ ps) = elim (encode_frame p) [
  | err e ↦ err e
  | ok frame ↦ elim (encode_stream ps) [ err e ↦ err e | ok bs ↦ ok (frame ++ bs) ]
]

-- ===== src/Ni/Examples.antt =====
-- Runs of frame.go, and its theorems at concrete streams.
use open_rfc_go.Base.{ℕ, pos, ◌≡◌, refl, List, [], ◌∷◌, ◌++◌, arith, inl, ok, err}
use mathlib.Core.List.{flatten}
use open_rfc_go.Ni.{
  FrameDecoder, payload_too_large, push, push_all, push_loop, retain, consume, consume_loop, settle,
  compact, advance, peek_payload_length, peek_loop, shift_in, wipe, encode_stream, encode_frame,
  new_frame_decoder, finish, truncated_stream,
}
use open_rfc_go.Ni.Stream.{frames_of}
use open_rfc_go.Ni.Push.{Yields, push-frames}
use open_rfc_go.Ni.Chunking.{
  fresh, fresh-IsValid, push_all-frames, push_all-chunking, push_all-encode_stream,
}

abbrev two_payloads : List (List ℕ)
two_payloads = (1 ∷ 2 ∷ []) ∷ [] ∷ []

abbrev two_frames : List ℕ
two_frames = 0 ∷ 0 ∷ 0 ∷ 2 ∷ 1 ∷ 2 ∷ 0 ∷ 0 ∷ 0 ∷ 0 ∷ []

-- The length prefixes straddle the chunks.
abbrev ragged : List (List ℕ)
ragged = (0 ∷ 0 ∷ []) ∷ (0 ∷ 2 ∷ 1 ∷ []) ∷ [] ∷ (2 ∷ 0 ∷ 0 ∷ 0 ∷ 0 ∷ 0 ∷ 0 ∷ []) ∷ []

abbrev whole : List (List ℕ)
whole = (two_frames ++ (0 ∷ 0 ∷ [])) ∷ []

ragged_run : (push_all ragged (fresh 10)).0 ≡ ok two_payloads
unfolding push_all push push_loop retain consume consume_loop settle compact advance
    peek_payload_length peek_loop shift_in wipe
ragged_run = refl

too_large_run : (push (0 ∷ 0 ∷ 0 ∷ 11 ∷ []) (fresh 10)).0 ≡ err (payload_too_large 11 10)
unfolding push push_loop retain consume consume_loop settle compact advance peek_payload_length
    peek_loop shift_in wipe
too_large_run = refl

new_run : new_frame_decoder (pos 10) ≡ ok (fresh 10)
unfolding new_frame_decoder
new_run = refl

encode_run : encode_stream two_payloads ≡ ok two_frames
unfolding encode_stream encode_frame
encode_run = refl

push-frames_example :
    Yields 10 [] (frames_of 10 (two_frames ++ (7 ∷ []))) (push (two_frames ++ (7 ∷ [])) (fresh 10))
unfolding flatten
push-frames_example =
    push-frames 10 (two_frames ++ (7 ∷ [])) (fresh 10) (fresh-IsValid 10) refl (omega arith)

push_all-frames_example : Yields 10 [] (frames_of 10 (flatten ragged)) (push_all ragged (fresh 10))
unfolding flatten
push_all-frames_example =
    push_all-frames ragged (fresh 10) 10 (fresh-IsValid 10) refl (inl (omega arith)) (omega arith)

push_all-chunking_example : (push_all ragged (fresh 10)).0 ≡ (push_all whole (fresh 10)).0
unfolding flatten
push_all-chunking_example =
    push_all-chunking 10 (fresh 10) ragged whole new_run (omega arith) (omega arith) refl

push_all-encode_stream_example :
    (d' : FrameDecoder) × (push_all ragged (fresh 10) ≡ (ok two_payloads, d'))
    × (finish d' ≡ err (truncated_stream 2))
unfolding flatten
push_all-encode_stream_example =
    push_all-encode_stream 10 (fresh 10) two_payloads ragged two_frames (0 ∷ 0 ∷ []) new_run
      encode_run (omega arith) (inl (omega arith)) (omega arith) refl

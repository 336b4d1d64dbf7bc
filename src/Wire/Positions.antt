-- ===== src/Wire/Positions.antt =====
-- wire.go: what each read yields at a position of a record that is long enough.
use open_rfc_go.Base.{
  ℕ, ℤ, pos, ◌+◌, ◌≤◌, ◌<◌, ◌^◌, ◌≡◌, sym, ap, ◌∙◌, List, [], ◌∷◌, ◌++◌, take, drop, length,
  length-append, length-drop, drop-drop, drop-append, take-append, get_or, get_or-drop, arith, ok,
}
use open_rfc_go.Base.Bytes.{
  uint16_be, uint32_be, to_int32, of_int32, put_uint16_be, put_uint32_be, IsInt32, uint16_be-put,
  uint32_be-put, of_int32-lt, to_int32-of_int32,
}
use open_rfc_go.Wire.Reader
use open_rfc_go.Wire.Reader.{Reader}
use Prim.Native.String.{String}

abbrev pub reader_at : List ℕ → String → ℕ → Reader
reader_at bs context at = record { bytes = bs; context = context; offset = at }

module _ (bs : List ℕ) (context : String) (at : ℕ) (field : String) where
  pub read_uint8-reader_at :
      at + 1 ≤ length bs
      → Reader.read_uint8 field (reader_at bs context at)
        ≡ (ok (get_or bs at 0), reader_at bs context (at + 1))
  unfolding Reader.read_uint8 Reader.checked Reader.ensure Reader.remaining
  read_uint8-reader_at h = ground arith

  pub read_uint16_be-reader_at :
      at + 2 ≤ length bs
      → Reader.read_uint16_be field (reader_at bs context at)
        ≡ (ok (uint16_be (drop at bs)), reader_at bs context (at + 2))
  unfolding Reader.read_uint16_be Reader.checked Reader.ensure Reader.remaining
  read_uint16_be-reader_at h = ground arith

  pub read_uint32_be-reader_at :
      at + 4 ≤ length bs
      → Reader.read_uint32_be field (reader_at bs context at)
        ≡ (ok (uint32_be (drop at bs)), reader_at bs context (at + 4))
  unfolding Reader.read_uint32_be Reader.checked Reader.ensure Reader.remaining
  read_uint32_be-reader_at h = ground arith

  pub read_int32_be-reader_at :
      at + 4 ≤ length bs
      → Reader.read_int32_be field (reader_at bs context at)
        ≡ (ok (to_int32 (uint32_be (drop at bs))), reader_at bs context (at + 4))
  unfolding Reader.read_int32_be
  read_int32_be-reader_at h = rw (read_uint32_be-reader_at h)

  pub read_bytes-reader_at :
      (n : ℕ)
      → at + n ≤ length bs
      → Reader.read_bytes (pos n) field (reader_at bs context at)
        ≡ (ok (take n (drop at bs)), reader_at bs context (at + n))
  unfolding Reader.read_bytes Reader.checked Reader.ensure Reader.remaining
  read_bytes-reader_at n h = ground arith

pub finish_at :
    (bs : List ℕ) (context : String) (at : ℕ)
    → length bs ≤ at
    → Reader.finish (reader_at bs context at) ≡ ok tt
unfolding Reader.finish Reader.remaining
finish_at bs context at h = ground arith

-- What each read yields where the bytes of a field stand, and what stands behind it.
pub drop_next :
    (bs x rest : List ℕ) (at n : ℕ)
    → drop at bs ≡ x ++ rest
    → length x ≡ n
    → drop (at + n) bs ≡ rest
drop_next bs x rest at n h k =
    sym (drop-drop n at bs)
    ∙ ap (drop n) h
    ∙ ap (λ m. drop m (x ++ rest)) (sym k)
    ∙ drop-append x rest

reaches :
    (bs x rest : List ℕ) (at : ℕ)
    → drop at bs ≡ x ++ rest
    → 1 ≤ length x
    → at + length x ≤ length bs
reaches bs x rest at h k =
    omega (arith, length-drop at bs, ap (length {A = ℕ}) h, length-append x rest)

module _ (bs : List ℕ) (context : String) (at : ℕ) (field : String) where
  pub read_uint8_next :
      (v : ℕ) (rest : List ℕ)
      → drop at bs ≡ v ∷ rest
      → Reader.read_uint8 field (reader_at bs context at) ≡ (ok v, reader_at bs context (at + 1))
  read_uint8_next v rest h =
      read_uint8-reader_at bs context at field (reaches bs (v ∷ []) rest at h (omega arith))
      ∙ ap (λ b. (ok b, reader_at bs context (at + 1)))
          (get_or-drop at bs 0 ∙ ap (λ xs. get_or xs 0 0) h)

  pub read_uint16_be_next :
      (v : ℕ) (rest : List ℕ)
      → drop at bs ≡ put_uint16_be v ++ rest
      → v < 65536
      → Reader.read_uint16_be field (reader_at bs context at)
        ≡ (ok v, reader_at bs context (at + 2))
  read_uint16_be_next v rest h k =
      read_uint16_be-reader_at bs context at field
        (reaches bs (put_uint16_be v) rest at h (omega arith))
      ∙ ap (λ b. (ok b, reader_at bs context (at + 2))) (ap uint16_be h ∙ uint16_be-put v rest k)

  pub read_uint32_be_next :
      (v : ℕ) (rest : List ℕ)
      → drop at bs ≡ put_uint32_be v ++ rest
      → v < 2 ^ 32
      → Reader.read_uint32_be field (reader_at bs context at)
        ≡ (ok v, reader_at bs context (at + 4))
  read_uint32_be_next v rest h k =
      read_uint32_be-reader_at bs context at field
        (reaches bs (put_uint32_be v) rest at h (omega arith))
      ∙ ap (λ b. (ok b, reader_at bs context (at + 4))) (ap uint32_be h ∙ uint32_be-put v rest k)

  pub read_int32_be_next :
      (z : ℤ) (rest : List ℕ)
      → drop at bs ≡ put_uint32_be (of_int32 z) ++ rest
      → IsInt32 z
      → Reader.read_int32_be field (reader_at bs context at) ≡ (ok z, reader_at bs context (at + 4))
  read_int32_be_next z rest h k =
      read_int32_be-reader_at bs context at field
        (reaches bs (put_uint32_be (of_int32 z)) rest at h (omega arith))
      ∙ ap (λ b. (ok (to_int32 b), reader_at bs context (at + 4)))
          (ap uint32_be h ∙ uint32_be-put (of_int32 z) rest (of_int32-lt z))
      ∙ ap (λ y. (ok y, reader_at bs context (at + 4))) (to_int32-of_int32 z k)

  pub read_bytes_next :
      (n : ℕ) (x rest : List ℕ)
      → drop at bs ≡ x ++ rest
      → length x ≡ n
      → 1 ≤ n
      → Reader.read_bytes (pos n) field (reader_at bs context at)
        ≡ (ok x, reader_at bs context (at + n))
  read_bytes_next n x rest h k some_byte =
      let there : at + length x ≤ length bs = reaches bs x rest at h (omega arith) in
      read_bytes-reader_at bs context at field n (omega arith)
      ∙ ap (λ b. (ok b, reader_at bs context (at + n)))
          (ap (take n) h ∙ ap (λ m. take m (x ++ rest)) (sym k) ∙ take-append x rest)

-- ===== src/Wire/Record/RoundTrip.antt =====
-- Records written by `compose` are read back by `parse`, and only those are accepted.
use open_rfc_go.Base.{
  ℕ, pos, zero, ◌+◌, ◌-◌, ◌≤◌, ◌<◌, ◌≡◌, refl, sym, ap, ◌∙◌, List, [], ◌∷◌, ◌++◌, take, drop,
  length, length-append, length-drop, length-replicate, drop-append, drop-drop, take_all, take-add,
  append_assoc, append-nil, All, All-drop, map, arith, ok, err, dec_lt, replicate, lt_cases, below,
  equal, above,
}
use open_rfc_go.Base.Bytes.{IsByte}
use open_rfc_go.Base.Stateful.{bind, pure}
use open_rfc_go.Wire.{Error, short_read, trailing_bytes, context_or_default}
use open_rfc_go.Wire.Reader
use open_rfc_go.Wire.Reader.{Reader, unread, remaining-unread}
use open_rfc_go.Wire.Writer
use open_rfc_go.Wire.Writer.{Writer, written, after_put, put_fits, put_short}
use open_rfc_go.Wire.Record.Defs.{
  Field, Shape, IsField, shape, width, encode, decode, encode_all, decode_all, total, write, read,
  write_all, read_all, compose, parse,
}
use open_rfc_go.Wire.Record.Fields.{
  length-encode, decode-encode, encode-decode, read_fits, read_short, write-put,
}
use Prim.Native.String.{String}

length-encode_all : (fs : List Field) → length (encode_all fs) ≡ total (map shape fs)
length-encode_all [] = refl
length-encode_all (f ∷ fs) =
    omega (arith, length-append (encode f) (encode_all fs), length-encode f, length-encode_all fs)

decode_all-encode_all :
    (fs : List Field) (rest : List ℕ)
    → All IsField fs
    → decode_all (map shape fs) (encode_all fs ++ rest) ≡ fs
decode_all-encode_all [] rest h = refl
decode_all-encode_all (f ∷ fs) rest (h, hs) = rw (append_assoc (encode f) (encode_all fs) rest) (
    rw (
      decode-encode f (encode_all fs ++ rest) h,
      ← length-encode f,
      drop-append (encode f) (encode_all fs ++ rest),
      decode_all-encode_all fs rest hs,
    ))

encode_all-decode_all :
    (ss : List Shape) (bs : List ℕ)
    → All IsByte bs
    → total ss ≤ length bs
    → encode_all (decode_all ss bs) ≡ take (total ss) bs
encode_all-decode_all [] bs b h = refl
encode_all-decode_all (s ∷ ss) bs b h =
    rw
      (
        encode-decode s bs b (omega arith),
        encode_all-decode_all ss (drop (width s) bs) (All-drop IsByte (width s) bs b)
            (omega (arith, length-drop (width s) bs)),
      )
      (sym (take-add (width s) (total ss) bs))

write_all_step :
    (name : String) (f : Field) (fs : List Field) (w : Writer) {w' : Writer}
    → write name f w ≡ (ok tt, w')
    → write_all name (f ∷ fs) w ≡ write_all name fs w'
unfolding write_all
write_all_step name f fs w e = rw (e, write_all)

read_all_step :
    (name : String) (s : Shape) (ss : List Shape) (r : Reader) {r' : Reader} {f : Field}
    → read name s r ≡ (ok f, r')
    → read_all name (s ∷ ss) r ≡ bind (read_all name ss r') (λ fs. pure (f ∷ fs))
unfolding read_all
read_all_step name s ss r e = rw (e, read_all)

read_all_stop :
    (name : String) (s : Shape) (ss : List Shape) (r : Reader) {r' : Reader} {e : Error}
    → read name s r ≡ (err e, r')
    → read_all name (s ∷ ss) r ≡ (err e, r')
unfolding read_all
read_all_stop name s ss r e = rw (e, read_all)

-- The writes append the encodings, one after the other.
pub write_all_fits :
    (name : String) (fs : List Field) (w : Writer)
    → w.offset + length (encode_all fs) ≤ length w.bytes
    → (w' : Writer) × (write_all name fs w ≡ (ok tt, w'))
      × (written w' ≡ written w ++ encode_all fs)
      × (w'.offset ≡ w.offset + length (encode_all fs))
      × (length w'.bytes ≡ length w.bytes)
write_all_fits name [] w h = (w, unfold write_all in refl, sym (append-nil _), omega arith, refl)
write_all_fits name (f ∷ fs) w h =
    let n : length (encode f ++ encode_all fs) ≡ length (encode f) + length (encode_all fs) =
      length-append (encode f) (encode_all fs) in
    let (done, grown, kept) = put_fits (encode f) name w (omega arith) in
    let (w', rest, grown', moved, kept') =
      write_all_fits name fs (after_put (encode f) w) (omega arith) in
    (
      w',
      write_all_step name f fs w (write-put name f w ∙ done) ∙ rest,
      grown' ∙ rw grown (append_assoc (written w) (encode f) (encode_all fs)),
      omega arith,
      kept' ∙ kept,
    )

pub read_all_fits :
    (name : String) (ss : List Shape) (r : Reader)
    → total ss ≤ Reader.remaining r
    → read_all name ss r
      ≡ (ok (decode_all ss (unread r)), record r { offset = r.offset + total ss })
read_all_fits name [] r h =
    unfold read_all in ap (λ o. (ok [], record r { offset = o })) (omega arith)
read_all_fits name (s ∷ ss) r h =
    let r' : Reader = record r { offset = r.offset + width s } in
    read_all_step name s ss r (read_fits name s r (omega arith))
    ∙ rw
        (
          read_all_fits name ss r' (
              omega (
                arith,
                remaining-unread r,
                remaining-unread r',
                length-drop r.offset r.bytes,
                length-drop (r.offset + width s) r.bytes,
              )),
          ← drop-drop (width s) r.offset r.bytes,
        )
        (ap
          (λ o. (
            ok (decode s (unread r) ∷ decode_all ss (drop (width s) (unread r))),
            record r { offset = o },
          ))
          (omega arith))

-- Reads past the end fail at the first field that does not fit.
read_all_short :
    (name : String) (ss : List Shape) (r : Reader)
    → Reader.remaining r < total ss
    → (n at left : ℕ) × (r' : Reader) × (read_all name ss r
        ≡ (err (short_read r.context name n at left), r'))
read_all_short name [] r h = absurd (omega arith)
read_all_short name (s ∷ ss) r h = elim (dec_lt (Reader.remaining r) (width s)) [
  | yes short ↦ (
    width s,
    r.offset,
    Reader.remaining r,
    r,
    read_all_stop name s ss r (read_short name s r short),
  )
  | no fits ↦
      let r' : Reader = record r { offset = r.offset + width s } in
      let (n, at, left, r'', e) = read_all_short name ss r' (
        omega (
          arith,
          remaining-unread r,
          remaining-unread r',
          length-drop r.offset r.bytes,
          length-drop (r.offset + width s) r.bytes,
        )) in
      (
        n,
        at,
        left,
        r'',
        read_all_step name s ss r (read_fits name s r (omega arith))
            ∙ ap (λ t. bind t (λ fs. pure (decode s (unread r) ∷ fs))) e,
      )
]

abbrev fresh_writer : ℕ → String → Writer
fresh_writer n context = record {
  bytes = replicate n 0;
  context = context_or_default context;
  offset = 0;
}

-- A record made for exactly its fields holds their encodings.
pub compose-encode_all :
    (context : String) (fs : List Field)
    → compose (pos (total (map shape fs))) context fs ≡ ok (encode_all fs)
unfolding compose Writer.new_writer
compose-encode_all context fs =
    let w = fresh_writer (total (map shape fs)) context in
    let zeros = length-replicate (total (map shape fs)) (zero) in
    let (w', done, grown, moved, kept) =
      write_all_fits context fs w (omega (arith, zeros, length-encode_all fs)) in
    let full : length w'.bytes ≤ w'.offset = omega (arith, zeros, length-encode_all fs) in
    rw done (Writer.finish_full w' full ∙ ap ok (sym (take_all w'.offset w'.bytes full) ∙ grown))

-- What `parse` answers, for every record.
pub parse_exact :
    (context : String) (ss : List Shape) (bs : List ℕ)
    → length bs ≡ total ss
    → parse context ss bs ≡ ok (decode_all ss bs)
unfolding parse Reader.new_reader
parse_exact context ss bs h =
    let r = Reader.new_reader bs context in
    let r' : Reader = record r { offset = r.offset + total ss } in
    rw (
      read_all_fits context ss r (omega (arith, remaining-unread r)),
      Reader.finish_done r' (omega (arith, remaining-unread r', length-drop (0 + total ss) bs)),
    )

-- A record that is longer than the shapes is refused by Finish, with the number of bytes left.
pub parse_long :
    (context : String) (ss : List Shape) (bs : List ℕ)
    → total ss < length bs
    → parse context ss bs ≡ err (trailing_bytes (context_or_default context) (length bs - total ss))
unfolding parse Reader.new_reader
parse_long context ss bs h =
    let r = Reader.new_reader bs context in
    let r' : Reader = record r { offset = r.offset + total ss } in
    let left : Reader.remaining r' ≡ length bs - total ss =
      omega (arith, remaining-unread r', length-drop (0 + total ss) bs) in
    rw (
      read_all_fits context ss r (omega (arith, remaining-unread r)),
      Reader.finish_trailing r' (omega arith),
      left,
    )

-- A record that is shorter than the shapes is refused by a short read.
pub parse_short :
    (context : String) (ss : List Shape) (bs : List ℕ)
    → length bs < total ss
    → (n at left : ℕ) × (parse context ss bs
        ≡ err (short_read (context_or_default context) context n at left))
unfolding parse Reader.new_reader
parse_short context ss bs h =
    let r = Reader.new_reader bs context in
    let (n, at, left, r', e) = read_all_short context ss r (omega (arith, remaining-unread r)) in
    (n, at, left, rw e)

-- Any fields in range are composed without error to a record of exactly their length, and parsing
-- it with the fields' shapes gives the fields back, with no byte left over.
pub parse-compose :
    (context : String) (fs : List Field)
    → All IsField fs
    → (bs : List ℕ) × (compose (pos (total (map shape fs))) context fs ≡ ok bs)
      × (parse context (map shape fs) bs ≡ ok fs)
parse-compose context fs h = (
  encode_all fs,
  compose-encode_all context fs,
  parse_exact context (map shape fs) (encode_all fs) (length-encode_all fs)
      ∙ ap ok (rw append-nil at (decode_all-encode_all fs [] h)),
)

-- A record of bytes that is parsed without error has exactly the length of the shapes, and composing
-- the fields again gives the record.
pub parse-inverse :
    (context : String) (ss : List Shape) (bs : List ℕ) (fs : List Field)
    → All IsByte bs
    → parse context ss bs ≡ ok fs
    → (compose (pos (length bs)) context fs ≡ ok bs) × (length bs ≡ total ss)
parse-inverse context ss bs fs b h = elim (lt_cases (length bs) (total ss)) [
  | below less ↦ cc ((parse_short context ss bs less).3)
  | equal same ↦
      let exact : fs ≡ decode_all ss bs = cc (parse_exact context ss bs same) in
      let again : encode_all fs ≡ bs =
        rw exact
          (encode_all-decode_all ss bs b (omega arith) ∙ take_all (total ss) bs (omega arith)) in
      let sized : total (map shape fs) ≡ length bs = sym (length-encode_all fs) ∙ ap length again in
      (
        ap (λ n. compose (pos n) context fs) (sym sized)
            ∙ compose-encode_all context fs
            ∙ ap ok again,
        same,
      )
  | above more ↦ cc (parse_long context ss bs more)
]

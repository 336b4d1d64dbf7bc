-- ===== src/Wire/Record/Puts.antt =====
-- The sequences of `put` calls by which the record encoders fill a Writer: each writes a field, some
-- after an encoding that may fail, and the first error ends the sequence.
use open_rfc_go.Base.{
  ℕ, ℤ, pos, ◌+◌, ◌≤◌, ◌≡◌, refl, sym, ap, ◌∙◌, List, [], ◌∷◌, ◌++◌, append_assoc, append-nil,
  length, length-append, length-replicate, replicate, take_all, arith, Result, ok, err,
}
use open_rfc_go.Base.Stateful.{Method, pure, ◌>>◌}
use open_rfc_go.Wire.{Error, context_or_default}
use open_rfc_go.Wire.Writer
use open_rfc_go.Wire.Writer.{Writer, written, after_put, put_fits}
use open_rfc_go.Wire.Record.Defs.{Field, encode, write}
use open_rfc_go.Wire.Record.Fields.{write-put}
use Prim.Native.String.{String}

pub data Put (E : Type 0) : Type 0 where
  plain : String → Field → Put E
  encoded : String → Result E (List ℕ) → Put E

module _ {E : Type 0} (in_record : Error → E) where
  abbrev pub lift_put : Result Error (Unit {0}) × Writer → Result E (Unit {0}) × Writer
  lift_put (ok u, w) = (ok u, w)
  lift_put (err e, w) = (err (in_record e), w)

  unfoldable pub put_one : Put E → Method Writer E (Unit {0})
  put_one (plain name f) w = lift_put (write name f w)
  put_one (encoded name (ok bs)) w = lift_put (Writer.write_bytes bs name w)
  put_one (encoded name (err e)) w = (err e, w)

  unfoldable pub put_all : List (Put E) → Method Writer E (Unit {0})
  put_all [] = pure tt
  put_all (p ∷ ps) = do put_one p; put_all ps

  abbrev pub lift_record : Result Error (List ℕ) → Result E (List ℕ)
  lift_record (ok bs) = ok bs
  lift_record (err e) = err (in_record e)

  abbrev pub finish_puts : Result E (Unit {0}) × Writer → Result E (List ℕ)
  finish_puts (ok _, w) = lift_record (Writer.finish w)
  finish_puts (err e, w) = err e

  -- NewWriter, the puts, and Finish.
  unfoldable pub compose_puts : ℤ → String → List (Put E) → Result E (List ℕ)
  compose_puts n context ps = elim (Writer.new_writer n context) [
    | ok w ↦ finish_puts (put_all ps w)
    | err e ↦ err (in_record e)
  ]

  -- The bytes of the puts, where every encoding succeeds.
  abbrev pub put_bytes : List (Put E) → List ℕ
  put_bytes [] = []
  put_bytes (plain name f ∷ ps) = encode f ++ put_bytes ps
  put_bytes (encoded name (ok bs) ∷ ps) = bs ++ put_bytes ps
  put_bytes (encoded name (err e) ∷ ps) = put_bytes ps

  abbrev pub AllOk : List (Put E) → Type 0
  AllOk [] = Unit
  AllOk (plain name f ∷ ps) = AllOk ps
  AllOk (encoded name (ok bs) ∷ ps) = AllOk ps
  AllOk (encoded name (err e) ∷ ps) = ⊥

  put_plain :
      (name : String) (f : Field) (w : Writer)
      → w.offset + length (encode f) ≤ length w.bytes
      → put_one (plain name f) w ≡ (ok tt, after_put (encode f) w)
  unfolding put_one
  put_plain name f w h = rw (write-put name f w, (put_fits (encode f) name w h).0)

  put_encoded :
      (name : String) (bs : List ℕ) (w : Writer)
      → w.offset + length bs ≤ length w.bytes
      → put_one (encoded name (ok bs)) w ≡ (ok tt, after_put bs w)
  unfolding put_one Writer.write_bytes
  put_encoded name bs w h = rw ((put_fits bs name w h).0)

  put_all_step :
      (p : Put E) (ps : List (Put E)) (w : Writer) {w' : Writer}
      → put_one p w ≡ (ok tt, w')
      → put_all (p ∷ ps) w ≡ put_all ps w'
  unfolding put_all
  put_all_step p ps w e = rw (put_all, e)

  -- What the puts leave, if they fit.
  abbrev Fills : List (Put E) → Writer → Type 0
  Fills ps w =
      (w' : Writer) × (put_all ps w ≡ (ok tt, w'))
      × (written w' ≡ written w ++ put_bytes ps)
      × (w'.offset ≡ w.offset + length (put_bytes ps))
      × (length w'.bytes ≡ length w.bytes)

  Fills-step :
      (p : Put E) (bs : List ℕ) (ps : List (Put E)) (w : Writer)
      → w.offset + length (bs ++ put_bytes ps) ≤ length w.bytes
      → put_one p w ≡ (ok tt, after_put bs w)
      → put_bytes (p ∷ ps) ≡ bs ++ put_bytes ps
      → Fills ps (after_put bs w)
      → Fills (p ∷ ps) w
  Fills-step p bs ps w h e b (w', rest, grown, moved, kept) =
      let n : length (bs ++ put_bytes ps) ≡ length bs + length (put_bytes ps) =
        length-append bs (put_bytes ps) in
      let (done, front, same) = put_fits bs "" w (omega arith) in
      (
        w',
        put_all_step p ps w e ∙ rest,
        grown
            ∙ ap (λ xs. xs ++ put_bytes ps) front
            ∙ append_assoc (written w) bs (put_bytes ps)
            ∙ ap (λ xs. written w ++ xs) (sym b),
        omega (arith, ap (length {A = ℕ}) b),
        kept ∙ same,
      )

  put_all-Fills :
      (ps : List (Put E)) (w : Writer)
      → AllOk ps
      → w.offset + length (put_bytes ps) ≤ length w.bytes
      → Fills ps w
  put_all-Fills [] w a h = (w, unfold put_all in refl, sym (append-nil _), omega arith, refl)
  put_all-Fills (plain name f ∷ ps) w a h =
      let n = length-append (encode f) (put_bytes ps) in
      let kept = (put_fits (encode f) name w (omega arith)).2 in
      Fills-step (plain name f) (encode f) ps w h (put_plain name f w (omega arith)) refl
        (put_all-Fills ps (after_put (encode f) w) a (omega arith))
  put_all-Fills (encoded name (ok bs) ∷ ps) w a h =
      let n = length-append bs (put_bytes ps) in
      let kept = (put_fits bs name w (omega arith)).2 in
      Fills-step (encoded name (ok bs)) bs ps w h (put_encoded name bs w (omega arith)) refl
        (put_all-Fills ps (after_put bs w) a (omega arith))
  put_all-Fills (encoded name (err e) ∷ ps) w a h = absurd a

  finish_full_puts :
      (w : Writer) (bs : List ℕ)
      → length w.bytes ≤ w.offset
      → written w ≡ bs
      → finish_puts (ok tt, w) ≡ ok bs
  finish_full_puts w bs full e =
      ap lift_record (Writer.finish_full w full) ∙ ap ok (sym (take_all w.offset w.bytes full) ∙ e)

  -- A record made for exactly its puts holds their bytes.
  pub compose_puts_ok :
      (n : ℕ) (context : String) (ps : List (Put E))
      → AllOk ps
      → length (put_bytes ps) ≡ n
      → compose_puts (pos n) context ps ≡ ok (put_bytes ps)
  unfolding compose_puts Writer.new_writer
  compose_puts_ok n context ps a h =
      let w : Writer = record {
        bytes = replicate n 0;
        context = context_or_default context;
        offset = 0;
      } in
      let zeros : length {A = ℕ} (replicate n 0) ≡ n = length-replicate n 0 in
      let (w', done, grown, moved, kept) = put_all-Fills ps w a (omega arith) in
      ap finish_puts done ∙ finish_full_puts w' (put_bytes ps) (omega arith) grown

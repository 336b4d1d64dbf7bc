-- ===== src/Fastser/Lz4/Search.antt =====
-- lz4.go: what FindCompressed finds.
use open_rfc_go.Base.{
  ℕ, zero, suc, pos, ◌+◌, ◌≤◌, ◌<◌, ◌≡◌, refl, sym, ap, ◌∙◌, subst, ◌⊎◌, inl, inr, true, Option,
  none, some, List, [], ◌∷◌, ◌++◌, append_assoc, append-nil, length, ltb, ok, arith, dec_lt,
}
use open_rfc_go.Fastser.Lz4.{Compressed, decode_compressed_at, find_loop, find_compressed}
use open_rfc_go.Fastser.Lz4.Decoded.{Decoded, IsDecoded, decode_compressed_at-IsDecoded}

-- No block begins in the last eight bytes.
decode_at_end :
    (payload : List ℕ) (p : ℕ)
    → length payload ≤ p + 8
    → decode_compressed_at payload (pos p) ≡ none
decode_at_end payload p h =
    at (decode_compressed_at payload (pos p)) (decode_compressed_at-IsDecoded payload p)
  where
    at : (o : Option (Compressed × ℕ)) → IsDecoded payload p o → o ≡ none
    at none d = refl
    at (some (c, next)) d = absurd (omega (arith, d.moved, d.inside, d.some_bytes))

-- The position lies in one of the blocks, its header included.
pub data Covered (p : ℕ) : List Compressed → Type 0 where
  in_head :
      {c : Compressed} {cs : List Compressed}
      → c.offset ≤ p
      → p < c.offset + 8 + c.compressed_size
      → Covered p (c ∷ cs)
  in_tail : {c : Compressed} {cs : List Compressed} → Covered p cs → Covered p (c ∷ cs)

-- The blocks stand behind one another between two positions.
abbrev pub IsAscending : ℕ → ℕ → List Compressed → Type 0
IsAscending from to [] = from ≤ to
IsAscending from to (c ∷ cs) =
    (from ≤ c.offset) × IsAscending (c.offset + 8 + c.compressed_size) to cs

-- Each is what the decoder finds at its offset.
abbrev pub IsFound : List ℕ → List Compressed → Type 0
IsFound payload [] = Unit
IsFound payload (c ∷ cs) =
    (decode_compressed_at payload (pos c.offset) ≡ some (c, c.offset + 8 + c.compressed_size))
    × IsFound payload cs

pub record Scanned (payload : List ℕ) (from : ℕ) (cs : List Compressed) : Type 0 where
  pub ascending : IsAscending from (length payload) cs
  pub found : IsFound payload cs
  pub complete : (p : ℕ) → from ≤ p → Covered p cs ⊎ (decode_compressed_at payload (pos p) ≡ none)

end-Scanned :
    (payload : List ℕ) (i : ℕ) → i ≤ length payload → length payload ≤ i + 8 → Scanned payload i []
end-Scanned payload i h stop = record {
  ascending = h;
  found = tt;
  complete = λ p le. inr (decode_at_end payload p (omega arith));
}

earlier-IsAscending :
    (i to : ℕ) (cs : List Compressed) → IsAscending (i + 1) to cs → IsAscending i to cs
earlier-IsAscending i to [] h = omega arith
earlier-IsAscending i to (c ∷ cs) (le, h) = (omega arith, h)

skip-Scanned :
    (payload : List ℕ) (i : ℕ) (cs : List Compressed)
    → decode_compressed_at payload (pos i) ≡ none
    → Scanned payload (i + 1) cs
    → Scanned payload i cs
skip-Scanned payload i cs e s = record {
  ascending = earlier-IsAscending i (length payload) cs s.ascending;
  found = s.found;
  complete = λ p le. elim (dec_lt i p) [
    | yes later ↦ s.complete p (omega arith)
    | no h ↦
        let same : i ≡ p = omega arith in
        inr (subst (λ q. decode_compressed_at payload (pos q) ≡ none) same e)
  ];
}

take-Scanned :
    (payload : List ℕ) (i at : ℕ) (c : Compressed) (cs : List Compressed)
    → decode_compressed_at payload (pos i) ≡ some (c, at)
    → c.offset ≡ i
    → at ≡ i + 8 + c.compressed_size
    → Scanned payload at cs
    → Scanned payload i (c ∷ cs)
take-Scanned payload i at c cs e same moved s = record {
  ascending =
      (omega arith, subst (λ q. IsAscending q (length payload) cs) (omega arith) s.ascending);
  found = (
    ap (λ q. decode_compressed_at payload (pos q)) same ∙ e ∙ ap (λ q. some (c, q)) (omega arith),
    s.found,
  );
  complete = λ p le. elim (dec_lt p at) [
    | yes inside ↦ inl (in_head (omega arith) (omega arith))
    | no h ↦ elim (s.complete p (omega arith)) [ inl k ↦ inl (in_tail k) | inr k ↦ inr k ]
  ];
}

find_stops :
    (fuel : ℕ) (payload : List ℕ) (i : ℕ) (out : List Compressed)
    → length payload ≤ i + 8
    → find_loop fuel payload i out ≡ ok out
unfolding find_loop
find_stops zero payload i out h = ground arith
find_stops (suc fuel) payload i out h = ground arith

find_goes_on :
    (fuel : ℕ) (payload : List ℕ) (i : ℕ) (out : List Compressed) (o : Option (Compressed × ℕ))
    → i + 8 < length payload
    → decode_compressed_at payload (pos i) ≡ o
    → find_loop (suc fuel) payload i out ≡ (elim o [
      | none ↦ find_loop fuel payload (i + 1) out
      | some (c, at) ↦ find_loop fuel payload at (out ++ (c ∷ []))
    ])
unfolding find_loop
find_goes_on fuel payload i out o h e =
    let more : ltb (i + 8) (length payload) ≡ true = ground arith in rw (find_loop, more, e) refl

find_loop-Scanned :
    (fuel : ℕ) (payload : List ℕ) (i : ℕ) (out : List Compressed)
    → length payload ≤ fuel + i
    → i ≤ length payload
    → (cs : List Compressed) × (find_loop fuel payload i out ≡ ok (out ++ cs))
      × Scanned payload i cs
find_loop-Scanned zero payload i out f h = (
  [],
  find_stops zero payload i out (omega arith) ∙ ap ok (sym (append-nil out)),
  end-Scanned payload i h (omega arith),
)
find_loop-Scanned (suc fuel) payload i out f h = elim (dec_lt (i + 8) (length payload)) [
  | no stop ↦ (
    [],
    find_stops (suc fuel) payload i out (omega arith) ∙ ap ok (sym (append-nil out)),
    end-Scanned payload i h (omega arith),
  )
  | yes more ↦ at more (decode_compressed_at payload (pos i)) refl (find_loop-Scanned fuel payload)
]
  where
    at :
        i + 8 < length payload
        → (o : Option (Compressed × ℕ)) → decode_compressed_at payload (pos i) ≡ o
        → ((j : ℕ) (out : List Compressed)
            → length payload ≤ fuel + j
            → j ≤ length payload
            → (cs : List Compressed) × (find_loop fuel payload j out ≡ ok (out ++ cs))
              × Scanned payload j cs)
        → (cs : List Compressed) × (find_loop (suc fuel) payload i out ≡ ok (out ++ cs))
          × Scanned payload i cs
    at more none e ih =
        let (cs, run, s) = ih (i + 1) out (omega arith) (omega arith) in
        (cs, find_goes_on fuel payload i out none more e ∙ run, skip-Scanned payload i cs e s)
    at more (some (c, next)) e ih =
        let d : Decoded payload i c next =
          subst (IsDecoded payload i) e (decode_compressed_at-IsDecoded payload i) in
        let (cs, run, s) =
          ih next (out ++ (c ∷ [])) (omega (arith, d.moved, d.some_bytes)) d.inside in
        (
          c ∷ cs,
          find_goes_on fuel payload i out (some (c, next)) more e
              ∙ run
              ∙ ap ok (append_assoc out (c ∷ []) cs),
          take-Scanned payload i next c cs e d.same d.moved s,
        )

-- The search ends on any payload. The blocks that it returns are what the decoder finds at their
-- offsets, they follow one another without overlap, and no block begins at a position outside them.
pub find_compressed-Scanned :
    (payload : List ℕ)
    → (cs : List Compressed) × (find_compressed payload ≡ ok cs) × Scanned payload 0 cs
unfolding find_compressed
find_compressed-Scanned payload =
    find_loop-Scanned (length payload) payload 0 [] (omega arith) (omega arith)

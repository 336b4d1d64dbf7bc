-- ===== src/Fastser/Lz4/Runs.antt =====
-- lz4.go: the copy of a match, and run lengths with their 255-chains.
use open_rfc_go.Base.{
  ℕ, zero, suc, ◌+◌, ◌-◌, ◌*◌, ◌/◌, ◌%◌, ◌≤◌, ◌<◌, ◌≡◌, refl, sym, ap, ap₂, ◌∙◌, List, [], ◌∷◌,
  ◌++◌, append_assoc, append-nil, length, length-append, drop, drop-append_le, replicate, Reads,
  reads, inl, inr, length-drop, ok, arith, dec_lt,
}
use open_rfc_go.Fastser.Lz4.{read_chain, read_run, copy_match}
use open_rfc_go.Fastser.Lz4.Blocks.{nibble, chain, rotate}

-- A match copied byte by byte stays within what was produced, and repeats the window behind its
-- start, also where it overlaps itself.
pub copy_match_lem :
    (n start : ℕ) (dst : List ℕ)
    → start < length dst
    → copy_match n start dst ≡ ok (dst ++ rotate n (drop start dst))
unfolding copy_match
copy_match_lem zero start dst h = ap ok (sym (append-nil dst))
copy_match_lem (suc n) start dst h = at (reads dst start) (copy_match_lem n (start + 1))
  where
    at :
        Reads dst start
        → ((d : List ℕ)
            → start + 1 < length d
            → copy_match n (start + 1) d ≡ ok (d ++ rotate n (drop (start + 1) d)))
        → copy_match (suc n) start dst ≡ ok (dst ++ rotate (suc n) (drop start dst))
    at (inl (_, e)) ih = absurd (omega (arith, length-drop start dst, ap (length {A = ℕ}) e))
    at (inr (x, there, e)) ih =
        let d = dst ++ (x ∷ []) in
        let rest = drop (start + 1) dst in
        let window : drop (start + 1) d ≡ rest ++ (x ∷ []) =
          drop-append_le (start + 1) dst (x ∷ []) (omega arith) in
        rw (copy_match, there, e)
          (ih d (omega (arith, length-append dst (x ∷ [])))
            ∙ ap (λ ys. ok (d ++ rotate n ys)) window
            ∙ ap ok (append_assoc dst (x ∷ []) (rotate n (rest ++ (x ∷ [])))))

pub length-rotate : (n x : ℕ) (xs : List ℕ) → length (rotate n (x ∷ xs)) ≡ n
length-rotate zero x xs = refl
length-rotate (suc n) x [] = ap suc (length-rotate n x [])
length-rotate (suc n) x (y ∷ ys) = ap suc (length-rotate n y (ys ++ (x ∷ [])))

read_chain-replicate :
    (want n k r : ℕ) (rest : List ℕ)
    → n + k * 255 + r ≤ want
    → r < 255
    → read_chain want n (replicate k 255 ++ (r ∷ rest)) ≡ ok (n + k * 255 + r, rest)
unfolding read_chain
read_chain-replicate want n zero r rest h l = ground arith
read_chain-replicate want n (suc k) r rest h l =
    ground (arith, read_chain-replicate want (n + 255) k r rest (omega arith) l)

pub read_run-chain :
    (want n : ℕ) (rest : List ℕ)
    → n ≤ want
    → read_run want (nibble n) (chain n ++ rest) ≡ ok (n, rest)
unfolding read_run
read_run-chain want n rest h = elim (dec_lt n 15) [
  | yes small ↦ ground arith
  | no large ↦
      let chained : chain n ≡ replicate ((n - 15) / 255) 255 ++ ((n - 15) % 255 ∷ []) =
        ground arith in
      let joined : chain n ++ rest ≡ replicate ((n - 15) / 255) 255 ++ ((n - 15) % 255 ∷ rest) =
        ap (λ xs. xs ++ rest) chained
        ∙ append_assoc (replicate ((n - 15) / 255) 255) ((n - 15) % 255 ∷ []) rest in
      let whole : 15 + (n - 15) / 255 * 255 + (n - 15) % 255 ≡ n = omega arith in
      let full : nibble n ≡ 15 = omega arith in
      ap₂ (read_run want) full joined
      ∙ read_chain-replicate want 15 ((n - 15) / 255) ((n - 15) % 255) rest (omega arith)
          (omega arith)
      ∙ ap (λ k. ok (k, rest)) whole
]

-- ===== src/Fastser/Lz4/Blocks.antt =====
-- LZ4 blocks as the published format describes them: sequences of literals and a match, what they
-- stand for, and their encoding.
use open_rfc_go.Base.{
  ℕ, zero, suc, ◌+◌, ◌-◌, ◌*◌, ◌/◌, ◌%◌, ◌≤◌, ◌<◌, List, [], ◌∷◌, ◌++◌, length, replicate, min,
  drop, ltb, if◌then◌else◌,
}

-- A block ends with literals that have no match.
pub data Block : Type 0 where
  last : List ℕ → Block
  matched : List ℕ → ℕ → ℕ → Block → Block

abbrev pub nibble : ℕ → ℕ
nibble n = min n 15

-- The 255-chain of a length of 15 or more.
abbrev pub chain : ℕ → List ℕ
chain n = if ltb n 15 then [] else (replicate ((n - 15) / 255) 255 ++ ((n - 15) % 255 ∷ []))

abbrev pub encode_block : Block → List ℕ
encode_block (last xs) = (nibble (length xs) * 16) ∷ (chain (length xs) ++ xs)
encode_block (matched xs offset size rest) =
    (nibble (length xs) * 16 + nibble (size - 4))
    ∷ (chain (length xs)
        ++ (xs ++ ((offset % 256) ∷ (offset / 256) ∷ (chain (size - 4) ++ encode_block rest))))

-- The window's bytes over and over.
abbrev pub rotate : ℕ → List ℕ → List ℕ
rotate zero window = []
rotate (suc n) [] = []
rotate (suc n) (x ∷ xs) = x ∷ rotate n (xs ++ (x ∷ []))

-- A match repeats the last `offset` bytes.
abbrev pub repeat_match : ℕ → ℕ → List ℕ → List ℕ
repeat_match offset size out = out ++ rotate size (drop (length out - offset) out)

-- What a block stands for, behind what came before it.
abbrev pub expand : List ℕ → Block → List ℕ
expand dst (last xs) = dst ++ xs
expand dst (matched xs offset size rest) = expand (repeat_match offset size (dst ++ xs)) rest

-- Every match lies in what was produced before it, and has the lengths that the format can express.
abbrev pub IsBlock : ℕ → Block → Type 0
IsBlock n (last xs) = Unit
IsBlock n (matched xs offset size rest) =
    (1 ≤ offset)
    × (offset ≤ n + length xs)
    × (offset < 65536)
    × (4 ≤ size)
    × IsBlock (n + length xs + size) rest

-- ===== src/Base/Bytes.antt =====
-- encoding/binary: unsigned words of 2 and 4 bytes, in both byte orders, and the signed reading.
use open_rfc_go.Base.Tests.{ltb, if◌then◌else◌, ℤ, pos, negsuc}
use Prim.Native.Nat.{ℕ, ◌+◌, ◌-◌, ◌*◌, ◌/◌, ◌%◌, ◌^◌, ◌<◌}
use mathlib.Core.Path.{◌≡◌}
use mathlib.Core.List.{List, [], ◌∷◌, ◌++◌}
use native.Mathlib.Omega.{arith}

abbrev pub IsByte : ℕ → Type 0
IsByte b = b < 256

abbrev pub put_uint16_be : ℕ → List ℕ
put_uint16_be v = v / 256 % 256 ∷ v % 256 ∷ []

abbrev pub put_uint32_be : ℕ → List ℕ
put_uint32_be v = v / 2 ^ 24 % 256 ∷ v / 2 ^ 16 % 256 ∷ v / 256 % 256 ∷ v % 256 ∷ []

abbrev pub put_uint32_le : ℕ → List ℕ
put_uint32_le v = v % 256 ∷ v / 256 % 256 ∷ v / 2 ^ 16 % 256 ∷ v / 2 ^ 24 % 256 ∷ []

-- On a shorter slice Go panics; every caller has checked the length.
abbrev pub uint16_be : List ℕ → ℕ
uint16_be (a ∷ b ∷ _) = a * 256 + b
uint16_be _ = 0

abbrev pub uint32_be : List ℕ → ℕ
uint32_be (a ∷ b ∷ c ∷ d ∷ _) = a * 2 ^ 24 + b * 2 ^ 16 + c * 256 + d
uint32_be _ = 0

abbrev pub uint32_le : List ℕ → ℕ
uint32_le (a ∷ b ∷ c ∷ d ∷ _) = a + b * 256 + c * 2 ^ 16 + d * 2 ^ 24
uint32_le _ = 0

-- int32(v) and uint32(z), in two's complement.
abbrev pub to_int32 : ℕ → ℤ
to_int32 v = if ltb v (2 ^ 31) then pos v else negsuc (2 ^ 32 - v - 1)

abbrev pub of_int32 : ℤ → ℕ
of_int32 (pos n) = n % 2 ^ 32
of_int32 (negsuc n) = (2 ^ 32 - 1 - n % 2 ^ 32)

unfoldable pub IsInt32 : ℤ → Type 0
IsInt32 (pos n) = n < 2 ^ 31
IsInt32 (negsuc n) = n < 2 ^ 31

pub uint16_be-put : (v : ℕ) (rest : List ℕ) → v < 2 ^ 16 → uint16_be (put_uint16_be v ++ rest) ≡ v
uint16_be-put v rest h = omega arith

pub uint32_be-put : (v : ℕ) (rest : List ℕ) → v < 2 ^ 32 → uint32_be (put_uint32_be v ++ rest) ≡ v
uint32_be-put v rest h = omega arith

pub uint32_le-put : (v : ℕ) (rest : List ℕ) → v < 2 ^ 32 → uint32_le (put_uint32_le v ++ rest) ≡ v
uint32_le-put v rest h = omega arith

pub to_int32-of_int32 : (z : ℤ) → IsInt32 z → to_int32 (of_int32 z) ≡ z
unfolding IsInt32
to_int32-of_int32 (pos n) h = ground arith
to_int32-of_int32 (negsuc n) h = ground arith

pub of_int32-lt : (z : ℤ) → of_int32 z < 2 ^ 32
of_int32-lt (pos n) = omega arith
of_int32-lt (negsuc n) = omega arith

pub of_int32-to_int32 : (v : ℕ) → v < 2 ^ 32 → of_int32 (to_int32 v) ≡ v
of_int32-to_int32 v h = ground arith

pub put-uint16_be : (a b : ℕ) → IsByte a → IsByte b → put_uint16_be (a * 256 + b) ≡ a ∷ b ∷ []
put-uint16_be a b ha hb = ground arith

pub put-uint32_be :
    (a b c d : ℕ)
    → IsByte a
    → IsByte b
    → IsByte c
    → IsByte d
    → put_uint32_be (a * 2 ^ 24 + b * 2 ^ 16 + c * 256 + d) ≡ a ∷ b ∷ c ∷ d ∷ []
put-uint32_be a b c d ha hb hc hd = ground arith

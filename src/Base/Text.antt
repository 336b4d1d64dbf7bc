-- ===== src/Base/Text.antt =====
-- The texts that the code builds with fmt.Sprintf.
use open_rfc_go.Base.{ℕ, zero, suc, ◌/◌, ◌%◌, List, [], ◌∷◌, get_or, ltb, if◌then◌else◌}
use Prim.Native.String.{String, ◌++◌}

abbrev digits : List String
digits = "0" ∷ "1" ∷ "2" ∷ "3" ∷ "4" ∷ "5" ∷ "6" ∷ "7" ∷ "8" ∷ "9" ∷ []

-- The decimal digits; each round leaves a smaller number, so the number itself is fuel enough.
unfoldable pub decimal_loop : ℕ → ℕ → String
decimal_loop zero n = get_or digits (n % 10) ""
decimal_loop (suc fuel) n =
    let front = decimal_loop fuel (n / 10) in
    if ltb n 10 then get_or digits n "" else front ++ get_or digits (n % 10) ""

-- `name[i]`
unfoldable pub numbered : String → ℕ → String
unfolding decimal_loop
numbered name i = name ++ ("[" ++ (decimal_loop i i ++ "]"))

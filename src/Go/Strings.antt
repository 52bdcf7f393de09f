-- ===== src/Go/Strings.antt =====
-- `strings.Split` and `strings.Join`, for a separator of one byte, which `split` takes as its code.
pub mod Parts
use Prim.Native.Char.{Char, code}
use Prim.Native.String
use namespace_cost_governor.Base.{ℕ, zero, suc, String, ◌<>◌, List, [], ◌∷◌, nat_beq, if◌then◌else◌}

onto_first : Char → List String → List String
onto_first c [] = (String.◌∷◌ c "") ∷ []
onto_first c (p ∷ ps) = (String.◌∷◌ c p) ∷ ps

unfoldable pub split : String → ℕ → List String
unfolding onto_first
split String.[] sep = "" ∷ []
split (String.◌∷◌ c s) sep =
    let rest = split s sep in if nat_beq (code c) sep then "" ∷ rest else onto_first c rest

unfoldable pub join : List String → String → String
join [] sep = ""
join (p ∷ []) sep = p
join (p ∷ q ∷ ps) sep = p <> (sep <> join (q ∷ ps) sep)

-- `strings.Repeat(s, n)`
unfoldable pub repeat : String → ℕ → String
repeat s zero = ""
repeat s (suc n) = s <> repeat s n

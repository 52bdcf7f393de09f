-- ===== src/Cli/Validation.antt =====
-- cmd/kubectl-budget/validation.go, with `strings.TrimSpace`.
use Prim.Native.Char.{Char, code}
use namespace_cost_governor.Base.{
  String, ◌<>◌, ◌==◌, Bool, ◌&&◌, ◌||◌, leb, ltb, nat_beq, length, if◌then◌else◌, Result, ok, err,
  failure,
}
use namespace_cost_governor.Go.Float.{Float64}
use namespace_cost_governor.Go.Strings.{join}
use namespace_cost_governor.Outside.{Outside}

-- `unicode.IsSpace`
is_space : Char → Bool
is_space ch =
    let c = code ch in
    leb 9 c && leb c 13
    || (nat_beq c 32
        || (nat_beq c 0x85
            || (nat_beq c 0xa0
                || (nat_beq c 0x1680
                    || (leb 0x2000 c && leb c 0x200a
                        || (nat_beq c 0x2028
                            || (nat_beq c 0x2029
                                || (nat_beq c 0x202f
                                    || (nat_beq c 0x205f || nat_beq c 0x3000)))))))))

trim_left : String → String
trim_left String.[] = ""
trim_left (String.◌∷◌ c s) = let rest = trim_left s in if is_space c then rest else String.◌∷◌ c s

-- A text of spaces is dropped, and a space before such a text with it.
trim_right : String → String
trim_right String.[] = ""
trim_right (String.◌∷◌ c s) =
    let rest = trim_right s in if is_space c && rest == "" then "" else String.◌∷◌ c rest

unfoldable pub trim_space : String → String
unfolding trim_left trim_right is_space
trim_space s = trim_right (trim_left s)

unfoldable pub validate_namespace : {F : Float64} → Outside F → String → Result String
validate_namespace O namespace =
    let trimmed = trim_space namespace in
    if trimmed == ""
    then err (failure "namespace cannot be empty")
    else (let faults = O.dns1123_faults trimmed in
        if ltb 0 (length faults)
        then err (failure ("invalid namespace \"" <> (trimmed <> ("\": " <> join faults "; "))))
        else ok trimmed)

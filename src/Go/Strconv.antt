-- ===== src/Go/Strconv.antt =====
-- `fmt.Sprintf("%d", n)` and `strconv.ParseInt(s, 10, 32)` with its error.
pub mod RoundTrip
use Prim.Native.Char.{Char, code}
use Prim.Native.String
use Prim.Native.String.{◌∷◌}
use namespace_cost_governor.Base.{
  ℕ, zero, suc, ◌+◌, ◌-◌, ◌*◌, ◌/◌, ◌%◌, ◌^◌, String, Option, none, some, Bool, true, false, ◌&&◌,
  ◌||◌, ◌<>◌, Error, failure, ltb, leb, nat_beq, if◌then◌else◌,
}
use namespace_cost_governor.Base.Int.{ℤ, pos, negsuc}

digit_char : ℕ → Char
digit_char zero = "0"
digit_char (suc zero) = "1"
digit_char (suc (suc zero)) = "2"
digit_char (suc (suc (suc zero))) = "3"
digit_char (suc (suc (suc (suc zero)))) = "4"
digit_char (suc (suc (suc (suc (suc zero))))) = "5"
digit_char (suc (suc (suc (suc (suc (suc zero)))))) = "6"
digit_char (suc (suc (suc (suc (suc (suc (suc zero))))))) = "7"
digit_char (suc (suc (suc (suc (suc (suc (suc (suc zero)))))))) = "8"
digit_char _ = "9"

-- The digits of `n` before `out`. Fuel above `n` is enough, as each round divides by ten.
digits : ℕ → ℕ → String → String
digits zero n out = out
digits (suc fuel) n out =
    let more = digits fuel (n / 10) (digit_char (n % 10) ∷ out) in
    if ltb n 10 then digit_char n ∷ out else more

unfoldable pub format_nat : ℕ → String
unfolding digits digit_char
format_nat n = digits (n + 1) n ""

unfoldable pub format_int : ℤ → String
unfolding format_nat
format_int (pos n) = format_nat n
format_int (negsuc n) = "-" ∷ format_nat (n + 1)

scan : ℕ → String → Option ℕ
scan n String.[] = some n
scan n (String.◌∷◌ c s) =
    if leb b'0' (code c) && leb (code c) b'9' then scan (n * 10 + (code c - b'0')) s else none

-- At least one digit, and digits only.
parse_digits : String → Option ℕ
unfolding scan
parse_digits String.[] = none
parse_digits (String.◌∷◌ c s) = scan 0 (c ∷ s)

-- The magnitude must be below 2 ^ 31, or at most 2 ^ 31 behind a minus sign.
within_int32 : Bool → ℕ → Option ℤ
within_int32 false n = if ltb n (2 ^ 31) then some (pos n) else none
within_int32 true zero = some (pos 0)
within_int32 true (suc n) = if leb (suc n) (2 ^ 31) then some (negsuc n) else none

-- Whether a text reads as a number at all.
reads : String → Bool
unfolding parse_digits
reads s = elim (parse_digits s) [ none ↦ false | some n ↦ true ]

is_numeral : String → Bool
unfolding reads
is_numeral String.[] = false
is_numeral (String.◌∷◌ c s) =
    if nat_beq (code c) b'-' || nat_beq (code c) b'+' then reads s else reads (c ∷ s)

-- The `*NumError` of `strconv.ParseInt(s, 10, 32)` at a text that has no int32.
unfoldable pub parse_int_error : String → Error
unfolding is_numeral
parse_int_error s = failure (
    "strconv.ParseInt: parsing \""
    <> (s <> (if is_numeral s then "\": value out of range" else "\": invalid syntax")))

signed : Bool → Option ℕ → Option ℤ
signed minus none = none
signed minus (some n) = within_int32 minus n

unfoldable pub parse_int32 : String → Option ℤ
unfolding parse_digits within_int32 signed
parse_int32 String.[] = none
parse_int32 (String.◌∷◌ c s) =
    if nat_beq (code c) b'-'
    then signed true (parse_digits s)
    else if nat_beq (code c) b'+'
    then signed false (parse_digits s)
    else signed false (parse_digits (c ∷ s))

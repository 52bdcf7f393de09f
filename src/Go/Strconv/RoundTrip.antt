-- ===== src/Go/Strconv/RoundTrip.antt =====
-- What `Sprintf("%d")` prints of an int32, `ParseInt` reads back.
use Prim.Native.Char.{code}
use Prim.Native.String.{◌∷◌}
use namespace_cost_governor.Base.{
  ℕ, zero, suc, ◌+◌, ◌*◌, ◌/◌, ◌%◌, ◌<◌, String, some, ◌≡◌, refl, ◌∙◌, ap, false, arith, ltb,
  Bool-cases, inl, inr,
}
use namespace_cost_governor.Base.Int.{ℤ, pos, negsuc, ◌≤ℤ◌}
use namespace_cost_governor.Go.Strconv.{
  digit_char, digits, format_nat, format_int, scan, parse_digits, within_int32, signed, parse_int32,
}

code-digit_char : (d : ℕ) → d < 10 → code (digit_char d) ≡ b'0' + d
unfolding digit_char
code-digit_char zero h = refl
code-digit_char (suc zero) h = refl
code-digit_char (suc (suc zero)) h = refl
code-digit_char (suc (suc (suc zero))) h = refl
code-digit_char (suc (suc (suc (suc zero)))) h = refl
code-digit_char (suc (suc (suc (suc (suc zero))))) h = refl
code-digit_char (suc (suc (suc (suc (suc (suc zero)))))) h = refl
code-digit_char (suc (suc (suc (suc (suc (suc (suc zero))))))) h = refl
code-digit_char (suc (suc (suc (suc (suc (suc (suc (suc zero)))))))) h = refl
code-digit_char (suc (suc (suc (suc (suc (suc (suc (suc (suc k))))))))) h = omega arith

-- Reading a digit behind a number.
scan_digit : (n d : ℕ) (s : String) → d < 10 → scan n (digit_char d ∷ s) ≡ scan (n * 10 + d) s
unfolding scan
scan_digit n d s h = ground (arith, code-digit_char d h)

scan-digits : (fuel n : ℕ) (out : String) → n < fuel → scan 0 (digits fuel n out) ≡ scan n out
unfolding digits
scan-digits zero n out h = elim h [ ]
scan-digits (suc fuel) n out h = ground (
  arith,
  scan_digit 0 n out,
  scan_digit (n / 10) (n % 10) out,
  scan-digits fuel (n / 10) (digit_char (n % 10) ∷ out),
)

digits_shape :
    (fuel n : ℕ) (out : String)
    → n < fuel
    → (d : ℕ) × (s : String) × (digits fuel n out ≡ digit_char d ∷ s) × (d < 10)
unfolding digits
digits_shape zero n out h = elim h [ ]
digits_shape (suc fuel) n out h = elim (Bool-cases (ltb n 10)) [
  | inl short ↦ (n, out, rw short, ground arith)
  | inr long ↦ rw long (digits_shape fuel (n / 10) (digit_char (n % 10) ∷ out) (ground arith))
]

-- Decimal digits are read back.
parse_digits-format_nat : (n : ℕ) → parse_digits (format_nat n) ≡ some n
unfolding format_nat parse_digits
parse_digits-format_nat n =
    let shape = digits_shape (n + 1) n "" (omega arith) in
    let read = scan-digits (n + 1) n "" (omega arith) in rw (shape.2) (rw (shape.2) at read)

-- A text that begins with a digit is read as a number with no sign.
parse_int32-digit :
    (d : ℕ) (s : String)
    → d < 10
    → parse_int32 (digit_char d ∷ s) ≡ signed false (parse_digits (digit_char d ∷ s))
unfolding parse_int32
parse_int32-digit d s h = ground (arith, code-digit_char d h)

parse_int32-format_nat : (n : ℕ) → parse_int32 (format_nat n) ≡ signed false (some n)
unfolding format_nat
parse_int32-format_nat n =
    let shape = digits_shape (n + 1) n "" (omega arith) in
    rw shape.2 (
      parse_int32-digit shape.0 shape.1 shape.3
      ∙ ap (signed false) (rw shape.2 at (parse_digits-format_nat n)))

-- Every int32 is read back from its decimal print.
pub parse_int32-format_int :
    (n : ℤ) → negsuc 2147483647 ≤ℤ n → n ≤ℤ pos 2147483647 → parse_int32 (format_int n) ≡ some n
unfolding format_int parse_int32
parse_int32-format_int (pos n) lo hi =
    rw (parse_int32-format_nat, signed, within_int32) (ground arith)
parse_int32-format_int (negsuc n) lo hi = rw (parse_digits-format_nat, signed) (ground arith)

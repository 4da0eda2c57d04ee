-- ===== src/Text/Digits.antt =====
-- Number directives: the parser with checked steps against the value that a text denotes.
use ngx_inference.Prelude.{
  ℕ, ◌+◌, ◌-◌, ◌*◌, ◌≤◌, ◌≡◌, Bool, true, ◌&&◌, [], ◌∷◌, none, some, arith, leb, if◌then◌else◌,
}
use ngx_inference.Text.{Bytes, is_digit, parse_digits}

-- Reference: a text of digits, and its value with no bound.
abbrev pub all_digits : Bytes → Bool
all_digits [] = true
all_digits (c ∷ s) = is_digit c && all_digits s

abbrev pub digits_value : ℕ → Bytes → ℕ
digits_value acc [] = acc
digits_value acc (c ∷ s) = digits_value (acc * 10 + (c - b'0')) s

pub le-digits_value : (acc : ℕ) (s : Bytes) → acc ≤ digits_value acc s
le-digits_value acc [] = omega arith
le-digits_value acc (c ∷ s) = omega (arith, le-digits_value (acc * 10 + (c - b'0')) s)

-- What the checked loop returns, whether it overflows on the way or not.
pub parse_digits_lem :
    (top acc : ℕ) (s : Bytes)
    → acc ≤ top
    → parse_digits top acc s
      ≡ (if all_digits s && leb (digits_value acc s) top then some (digits_value acc s) else none)
unfolding parse_digits
parse_digits_lem top acc [] h = ground arith
parse_digits_lem top acc (c ∷ s) h = ground (
  arith,
  parse_digits_lem top (acc * 10 + (c - b'0')) s,
  le-digits_value (acc * 10 + (c - b'0')) s,
)

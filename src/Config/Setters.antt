-- ===== src/Config/Setters.antt =====
-- The parsing helpers against what their texts denote.
use ngx_inference.Prelude.{
  ℕ, ◌≡◌, ◌↔◌, Bool, true, false, ◌&&◌, not, none, some, [], ◌∷◌, arith, leb, ◌==◌, if◌then◌else◌,
}
use ngx_inference.Text.{
  Bytes, is_empty, parse_uint, to_ascii_lowercase, lower, eq_ignore_ascii_case, bytes,
}
use ngx_inference.Text.Digits.{all_digits, digits_value, parse_digits_lem}
use ngx_inference.Text.Case.{eq_ignore_ascii_case_iff}
use ngx_inference.Config.{set_usize, set_u64, set_on_off, max_word}

-- The text without its leading `+`, when something follows it.
abbrev pub unsigned_part : Bytes → Bytes
unsigned_part [] = []
unsigned_part (c ∷ []) = c ∷ []
unsigned_part (c ∷ d ∷ s) = if c == b'+' then d ∷ s else c ∷ d ∷ s

-- A text that denotes a number of 64 bits: digits, at least one, with an optional `+`.
abbrev pub denotes_word : Bytes → Bool
denotes_word s =
    not (is_empty s)
    && all_digits (unsigned_part s)
    && leb (digits_value 0 (unsigned_part s)) max_word

parse_uint_lem :
    (s : Bytes)
    → parse_uint max_word s
      ≡ (if denotes_word s then some (digits_value 0 (unsigned_part s)) else none)
unfolding parse_uint
parse_uint_lem [] = ground arith
parse_uint_lem (c ∷ []) = ground (arith, parse_digits_lem max_word 0 (c ∷ []))
parse_uint_lem (c ∷ d ∷ s) =
    ground (arith, parse_digits_lem max_word 0 (d ∷ s), parse_digits_lem max_word 0 (c ∷ d ∷ s))

-- The target and the report that a number directive must leave for the text `s`.
abbrev pub expected_word : ℕ → Bytes → ℕ × Bool
expected_word target s =
    if denotes_word s then (digits_value 0 (unsigned_part s), true) else (target, false)

-- `set_usize` and `set_u64` store exactly the number that the text denotes (digits with an
-- optional `+`, at most 2^64 - 1), and on any other text report the error and leave the target.
pub set_word_exact :
    (target : ℕ) (s : Bytes)
    → (set_usize target s ≡ expected_word target s) × (set_u64 target s ≡ expected_word target s)
unfolding set_usize set_u64
set_word_exact target s = ground (arith, parse_uint_lem s)

eq_ignore_ascii_case-on :
    (s : Bytes) → (eq_ignore_ascii_case s (bytes "on") ≡ true) ↔ (to_ascii_lowercase s ≡ bytes "on")
unfolding to_ascii_lowercase lower
eq_ignore_ascii_case-on s = eq_ignore_ascii_case_iff s (bytes "on")

eq_ignore_ascii_case-off :
    (s : Bytes)
    → (eq_ignore_ascii_case s (bytes "off") ≡ true) ↔ (to_ascii_lowercase s ≡ bytes "off")
unfolding to_ascii_lowercase lower
eq_ignore_ascii_case-off s = eq_ignore_ascii_case_iff s (bytes "off")

-- `set_on_off` reads a text as `on` or `off` exactly when it is that word in some case of its letters.
pub set_on_off_iff :
    (s : Bytes) (b : Bool)
    → (set_on_off s ≡ some b) ↔ (to_ascii_lowercase s ≡ (if b then bytes "on" else bytes "off"))
unfolding set_on_off
set_on_off_iff s true = ground (arith, eq_ignore_ascii_case-on s, eq_ignore_ascii_case-off s)
set_on_off_iff s false = ground (arith, eq_ignore_ascii_case-on s, eq_ignore_ascii_case-off s)

-- ===== src/Text.antt =====
-- Byte strings: what the module uses of Rust's `str` and `u64::from_str`
-- (src/modules/config.rs, src/modules/bbr.rs and src/grpc.rs call these).
-- A text is the list of its UTF-8 bytes.
pub mod Case
pub mod Digits
pub mod Decimal
use Prim.Native.Char.{code}
use Prim.Native.String.{String}
use ngx_inference.Prelude.{
  ℕ, ◌+◌, ◌-◌, ◌*◌, Bool, true, false, ◌&&◌, List, [], ◌∷◌, Option, none, some, map, leb, ◌==◌,
  if◌then◌else◌,
}

abbrev pub Bytes : Type 0
Bytes = List ℕ

-- The bytes of an ASCII literal.
abbrev pub bytes : String → Bytes
bytes String.[] = []
bytes (String.◌∷◌ c s) = code c ∷ bytes s

abbrev pub is_empty : Bytes → Bool
is_empty [] = true
is_empty (_ ∷ _) = false

-- `u8::to_ascii_lowercase`.
unfoldable pub lower : ℕ → ℕ
lower c = if leb b'A' c && leb c b'Z' then c + 32 else c

-- `str::to_ascii_lowercase`.
unfoldable pub to_ascii_lowercase : Bytes → Bytes
to_ascii_lowercase = map lower

-- `str::eq_ignore_ascii_case`.
unfoldable pub eq_ignore_ascii_case : Bytes → Bytes → Bool
eq_ignore_ascii_case [] [] = true
eq_ignore_ascii_case [] (_ ∷ _) = false
eq_ignore_ascii_case (_ ∷ _) [] = false
eq_ignore_ascii_case (c ∷ s) (d ∷ t) = lower c == lower d && eq_ignore_ascii_case s t

-- `s.starts_with(p)`, the prefix first.
unfoldable pub starts_with : Bytes → Bytes → Bool
starts_with [] s = true
starts_with (c ∷ p) [] = false
starts_with (c ∷ p) (d ∷ s) = c == d && starts_with p s

abbrev pub is_digit : ℕ → Bool
is_digit c = leb b'0' c && leb c b'9'

-- The digit loop of `from_str_radix(_, 10)`, with its checked multiplication and addition.
unfoldable pub parse_digits : ℕ → ℕ → Bytes → Option ℕ
parse_digits top acc [] = some acc
parse_digits top acc (c ∷ s) =
    let acc' = acc * 10 + (c - b'0') in
    let rest = parse_digits top acc' s in
    if is_digit c then (if leb acc' top then rest else none) else none

-- `str::parse` at an unsigned type whose largest value is `top`: one `+` may stand first.
unfoldable pub parse_uint : ℕ → Bytes → Option ℕ
unfolding parse_digits
parse_uint top [] = none
parse_uint top (c ∷ []) = if c == b'+' then none else parse_digits top 0 (c ∷ [])
parse_uint top (c ∷ d ∷ s) =
    if c == b'+' then parse_digits top 0 (d ∷ s) else parse_digits top 0 (c ∷ d ∷ s)

-- `==` on texts.
unfoldable pub bytes_eq : Bytes → Bytes → Bool
bytes_eq [] [] = true
bytes_eq [] (_ ∷ _) = false
bytes_eq (_ ∷ _) [] = false
bytes_eq (c ∷ s) (d ∷ t) = c == d && bytes_eq s t

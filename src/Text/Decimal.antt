-- ===== src/Text/Decimal.antt =====
-- `{}` for an unsigned number: its decimal digits, most significant first.
use ngx_inference.Prelude.{
  ℕ, zero, suc, ◌+◌, ◌/◌, ◌%◌, ◌<◌, ◌≡◌, dec_lt, refl, true, false, [], ◌∷◌, ltb, arith,
  if◌then◌else◌,
}
use ngx_inference.Text.{Bytes, is_empty}
use ngx_inference.Text.Digits.{all_digits, digits_value}

-- One round for each digit; `n` rounds are enough, since each divides by ten.
unfoldable pub emit : ℕ → ℕ → Bytes → Bytes
emit zero n out = out
emit (suc k) n out =
    let out' = (b'0' + n % 10) ∷ out in
    let rest = emit k (n / 10) out' in if ltb n 10 then out' else rest

unfoldable pub to_decimal : ℕ → Bytes
unfolding emit
to_decimal n = emit (suc n) n []

emit_lem :
    (k n : ℕ) (out : Bytes)
    → n < k
    → (digits_value 0 (emit k n out) ≡ digits_value n out)
      × (all_digits (emit k n out) ≡ all_digits out)
unfolding emit
emit_lem zero n out h = absurd (omega arith)
emit_lem (suc k) n out h = elim (dec_lt n 10) [
  | yes small ↦ (ground arith, ground arith)
  | no large ↦
      let (value, digits) = emit_lem k (n / 10) ((b'0' + n % 10) ∷ out) (omega arith) in
      (grind (arith, value), grind (arith, digits))
]

emit_some : (k n c : ℕ) (out : Bytes) → is_empty (emit k n (c ∷ out)) ≡ false
unfolding emit
emit_some zero n c out = refl
emit_some (suc k) n c out = ground (arith, emit_some k (n / 10) (b'0' + n % 10) (c ∷ out))

-- What is written is digits, at least one, and denotes the number.
pub to_decimal_lem :
    (n : ℕ)
    → (digits_value 0 (to_decimal n) ≡ n)
      × (all_digits (to_decimal n) ≡ true)
      × (is_empty (to_decimal n) ≡ false)
unfolding to_decimal
to_decimal_lem n =
    let (value, digits) = emit_lem (suc n) n [] (omega arith) in
    (value, digits, ground (arith, emit_some n (n / 10) (b'0' + n % 10) []))

-- ===== src/Utf8/Lossy.antt =====
-- A text that is valid already comes through the lossy conversion unchanged.
use ngx_inference.Prelude.{
  ℕ, zero, suc, ◌-◌, ◌≡◌, refl, true, [], ◌∷◌, arith, length, drop, take-append-drop,
}
use ngx_inference.Text.{Bytes}
use ngx_inference.Utf8.{first_char, utf8_ok, is_utf8, lossy, from_utf8_lossy}

lossy_ok : (n : ℕ) (s : Bytes) → utf8_ok n s ≡ true → lossy n s ≡ s
unfolding utf8_ok lossy
lossy_ok zero [] h = refl
lossy_ok (suc n) [] h = refl
lossy_ok zero (b ∷ s) h = cc
lossy_ok (suc n) (b ∷ s) h = ground (
  arith,
  lossy_ok n (drop ((first_char b s).1 - 1) s),
  take-append-drop ((first_char b s).1 - 1) s,
)

pub from_utf8_lossy_valid : (s : Bytes) → is_utf8 s ≡ true → from_utf8_lossy s ≡ s
unfolding is_utf8 from_utf8_lossy
from_utf8_lossy_valid s h = lossy_ok (length s) s h

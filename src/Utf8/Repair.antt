-- ===== src/Utf8/Repair.antt =====
-- `String::from_utf8_lossy` makes a `str` of any bytes, as its type promises.
use ngx_inference.Prelude.{
  ℕ, zero, suc, ◌-◌, ◌+◌, ◌≤◌, ◌≡◌, refl, true, false, [], ◌∷◌, ◌++◌, arith, length, length-append,
  if◌then◌else◌, take, drop, Bool-cases, inl, inr, Bool,
}
use ngx_inference.Text.{Bytes}
use ngx_inference.Utf8.{
  lead_width, second_ok, tail_bytes, after_lead, first_char, utf8_ok, is_utf8, lossy,
  from_utf8_lossy,
}

-- The bytes that continue a sequence, before any others.
tail_stays :
    (k n : ℕ) (s t : Bytes)
    → (tail_bytes k n s).0 ≡ true
    → ((tail_bytes k n s).1 ≡ n + k)
      × (tail_bytes k n (take k s ++ t) ≡ (true, n + k))
      × (drop k (take k s ++ t) ≡ t)
unfolding tail_bytes
tail_stays zero n s t h = ground arith
tail_stays (suc k) n [] t h = ground arith
tail_stays (suc k) n (c ∷ s) t h = ground (arith, tail_stays k (suc n) s t)

-- A sequence whose first byte announces more bytes.
lead_stays :
    (b k : ℕ) (s t : Bytes)
    → (after_lead b (suc (suc k)) s).0 ≡ true
    → ((after_lead b (suc (suc k)) s).1 ≡ suc (suc k))
      × (after_lead b (suc (suc k)) (take (suc k) s ++ t) ≡ (true, suc (suc k)))
      × (drop (suc k) (take (suc k) s ++ t) ≡ t)
unfolding after_lead
lead_stays b k [] t h = ground arith
lead_stays b k (c ∷ s) t h = ground (arith, tail_stays k 2 s t)

-- A first sequence that is complete stays so before any others.
char_stays :
    (b w : ℕ) (s t : Bytes)
    → lead_width b ≡ w
    → (first_char b s).0 ≡ true
    → let w = (first_char b s).1 in
      (first_char b (take (w - 1) s ++ t) ≡ (true, w))
      × (drop (w - 1) (take (w - 1) s ++ t) ≡ t)
      × (1 ≤ w)
unfolding first_char
char_stays b zero s t e h = ground (arith, e)
char_stays b (suc zero) s t e h = ground (arith, e)
char_stays b (suc (suc k)) s t e h = ground (arith, e, lead_stays b k s t)

-- One more sequence.
sequence_first :
    (b w m : ℕ) (x t : Bytes)
    → first_char b x ≡ (true, w)
    → drop (w - 1) x ≡ t
    → utf8_ok m t ≡ true
    → utf8_ok (suc m) (b ∷ x) ≡ true
unfolding utf8_ok
sequence_first b w m x t e d h = ground (arith, e, d, h)

-- One more U+FFFD.
replacement_first :
    (m : ℕ) (t : Bytes) → utf8_ok m t ≡ true → utf8_ok (suc m) (0xef ∷ 0xbf ∷ 0xbd ∷ t) ≡ true
unfolding utf8_ok first_char after_lead tail_bytes second_ok lead_width
replacement_first m t h = h

-- What stands behind a sequence is shorter than all of it.
behind_fits :
    (good : Bool) (b m : ℕ) (xs ys : Bytes)
    → length ((if good then b ∷ xs else 0xef ∷ 0xbf ∷ 0xbd ∷ []) ++ ys) ≤ suc m
    → length ys ≤ m
behind_fits true b m xs ys h = ground (arith, length-append xs ys)
behind_fits false b m xs ys h = ground arith

repaired : (n m : ℕ) (s : Bytes) → length (lossy n s) ≤ m → utf8_ok m (lossy n s) ≡ true
unfolding lossy utf8_ok
repaired zero m [] h = refl
repaired zero m (b ∷ s) h = refl
repaired (suc n) m [] h = refl
repaired (suc n) zero (b ∷ s) h = elim (Bool-cases (first_char b s).0) [
  | inl good ↦ ground (arith, good)
  | inr bad ↦ ground (arith, bad)
]
repaired (suc n) (suc m) (b ∷ s) h =
    let w = (first_char b s).1 in
    let rest = lossy n (drop (w - 1) s) in
    let later =
      repaired n m (drop (w - 1) s) (behind_fits (first_char b s).0 b m (take (w - 1) s) rest h) in
    elim (Bool-cases (first_char b s).0) [
      | inl good ↦
          let (same, dropped, _) = char_stays b _ s rest refl good in
          rw good (sequence_first b w m (take (w - 1) s ++ rest) rest same dropped later)
      | inr bad ↦ rw bad (replacement_first m rest later)
    ]

-- Whatever bytes are given, the lossy conversion yields UTF-8.
pub from_utf8_lossy-IsUtf8 : (s : Bytes) → is_utf8 (from_utf8_lossy s) ≡ true
unfolding is_utf8 from_utf8_lossy
from_utf8_lossy-IsUtf8 s = repaired (length s) _ s (omega arith)

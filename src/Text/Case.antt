-- ===== src/Text/Case.antt =====
-- ASCII case: what the comparison of header names and of `on`/`off` decides.
use ngx_inference.Prelude.{ℕ, ◌≡◌, refl, ◌↔◌, true, [], ◌∷◌, arith}
use ngx_inference.Text.{Bytes, lower, to_ascii_lowercase, eq_ignore_ascii_case}

pub lower_idem : (c : ℕ) → lower (lower c) ≡ lower c
unfolding lower
lower_idem c = ground arith

pub lowercase_idem : (s : Bytes) → to_ascii_lowercase (to_ascii_lowercase s) ≡ to_ascii_lowercase s
unfolding to_ascii_lowercase
lowercase_idem [] = refl
lowercase_idem (c ∷ s) = cc (lower_idem c, lowercase_idem s)

eq_ignore_ascii_case→ :
    (s t : Bytes) → eq_ignore_ascii_case s t ≡ true → to_ascii_lowercase s ≡ to_ascii_lowercase t
unfolding to_ascii_lowercase eq_ignore_ascii_case
eq_ignore_ascii_case→ [] [] h = refl
eq_ignore_ascii_case→ [] (d ∷ t) h = cc
eq_ignore_ascii_case→ (c ∷ s) [] h = cc
eq_ignore_ascii_case→ (c ∷ s) (d ∷ t) h = ground (arith, eq_ignore_ascii_case→ s t)

→eq_ignore_ascii_case :
    (s t : Bytes) → to_ascii_lowercase s ≡ to_ascii_lowercase t → eq_ignore_ascii_case s t ≡ true
unfolding to_ascii_lowercase eq_ignore_ascii_case
→eq_ignore_ascii_case [] [] h = refl
→eq_ignore_ascii_case [] (d ∷ t) h = cc
→eq_ignore_ascii_case (c ∷ s) [] h = cc
→eq_ignore_ascii_case (c ∷ s) (d ∷ t) h = ground (arith, →eq_ignore_ascii_case s t)

-- Two texts compare equal exactly when their lower-case forms are the same.
pub eq_ignore_ascii_case_iff :
    (s t : Bytes)
    → (eq_ignore_ascii_case s t ≡ true) ↔ (to_ascii_lowercase s ≡ to_ascii_lowercase t)
eq_ignore_ascii_case_iff s t = (eq_ignore_ascii_case→ s t, →eq_ignore_ascii_case s t)

-- Folding the sought name to lower case first does not change the answer.
pub eq_ignore_ascii_case-lowercase :
    (s t : Bytes) → eq_ignore_ascii_case s (to_ascii_lowercase t) ≡ eq_ignore_ascii_case s t
unfolding to_ascii_lowercase eq_ignore_ascii_case
eq_ignore_ascii_case-lowercase [] [] = refl
eq_ignore_ascii_case-lowercase [] (d ∷ t) = refl
eq_ignore_ascii_case-lowercase (c ∷ s) [] = refl
eq_ignore_ascii_case-lowercase (c ∷ s) (d ∷ t) =
    ground (arith, lower_idem d, eq_ignore_ascii_case-lowercase s t)

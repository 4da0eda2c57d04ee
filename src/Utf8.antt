-- ===== src/Utf8.antt =====
-- UTF-8: `std::str::from_utf8` and `String::from_utf8_lossy`, which src/model_extractor.rs,
-- src/modules/bbr.rs, src/lib.rs and src/grpc.rs apply to bytes from the network.
pub mod Lossy
pub mod Repair
use ngx_inference.Prelude.{
  ℕ, zero, suc, ◌-◌, Bool, true, false, ◌&&◌, List, [], ◌∷◌, ◌++◌, Option, none, some, leb, ltb,
  ◌==◌, if◌then◌else◌, length, drop, take,
}
use ngx_inference.Text.{Bytes, is_empty}

abbrev within : ℕ → ℕ → ℕ → Bool
within lo hi c = leb lo c && leb c hi

-- The length that a first byte announces; 0 where no sequence begins with it.
lead_width : ℕ → ℕ
lead_width b =
    if ltb b 0x80
    then 1
    else if within 0xc2 0xdf b
    then 2
    else if within 0xe0 0xef b
    then 3
    else if within 0xf0 0xf4 b
    then 4
    else 0

-- The second byte's range depends on the first: no overlong form, no surrogate, at most U+10FFFF.
second_ok : ℕ → ℕ → Bool
second_ok b c =
    if b == 0xe0
    then within 0xa0 0xbf c
    else if b == 0xed
    then within 0x80 0x9f c
    else if b == 0xf0
    then within 0x90 0xbf c
    else if b == 0xf4
    then within 0x80 0x8f c
    else within 0x80 0xbf c

-- The bytes after the second: whether the sequence is complete, and how many bytes belong to it.
tail_bytes : ℕ → ℕ → Bytes → Bool × ℕ
tail_bytes zero n r = (true, n)
tail_bytes (suc k) n [] = (false, n)
tail_bytes (suc k) n (c ∷ r) =
    let rest = tail_bytes k (suc n) r in if within 0x80 0xbf c then rest else (false, n)

after_lead : ℕ → ℕ → Bytes → Bool × ℕ
after_lead b w [] = (false, 1)
after_lead b w (c ∷ r) = if second_ok b c then tail_bytes (w - 2) 2 r else (false, 1)

-- The first sequence of `b ∷ s`, or the longest part of one that must be given up.
first_char : ℕ → Bytes → Bool × ℕ
first_char b s =
    let w = lead_width b in
    if w == 0 then (false, 1) else if w == 1 then (true, 1) else after_lead b w s

-- The fuel is the number of bytes: each round takes at least one.
utf8_ok : ℕ → Bytes → Bool
utf8_ok n [] = true
utf8_ok zero (b ∷ s) = false
utf8_ok (suc n) (b ∷ s) =
    let (good, w) = first_char b s in
    elim good [ true ↦ utf8_ok n (drop (w - 1) s) | false ↦ false ]

unfoldable pub is_utf8 : Bytes → Bool
unfolding utf8_ok first_char after_lead tail_bytes second_ok lead_width
is_utf8 s = utf8_ok (length s) s

-- `std::str::from_utf8`.
unfoldable pub from_utf8 : Bytes → Option Bytes
from_utf8 s = if is_utf8 s then some s else none

lossy : ℕ → Bytes → Bytes
lossy n [] = []
lossy zero (b ∷ s) = []
lossy (suc n) (b ∷ s) =
    let (good, w) = first_char b s in
    (if good then b ∷ take (w - 1) s else 0xef ∷ 0xbf ∷ 0xbd ∷ []) ++ lossy n (drop (w - 1) s)

-- `String::from_utf8_lossy`: what is given up becomes U+FFFD.
unfoldable pub from_utf8_lossy : Bytes → Bytes
unfolding lossy first_char after_lead tail_bytes second_ok lead_width
from_utf8_lossy s = lossy (length s) s

-- ===== src/Body/Parts.antt =====
-- What a chain of buffers stands for: the specification of both body readers.
use ngx_inference.Prelude.{
  ℕ, suc, ◌+◌, ◌≤◌, ◌≡◌, refl, ◌≢◌, ap, List, [], ◌∷◌, ◌++◌, Option, none, some, ℤ, pos, negsuc,
  length, take, drop, i64_max,
}
use ngx_inference.Text.{Bytes}
use ngx_inference.Nginx.{Buf}

-- A link without a buffer, a memory buffer at an address, or `size` bytes of a file from `at` on.
pub data Part : Type 0 where
  no_buffer : Part
  in_memory : ℕ → Bytes → Part
  in_file : ℤ → ℕ → ℕ → Part

-- How nginx describes the part.
abbrev pub buf_of : Part → Option Buf
buf_of no_buffer = none
buf_of (in_memory address bs) = some (record {
  start = some address;
  last = some (address + length bs);
  content = bs;
  file = none;
  file_pos = pos 0;
  file_last = pos 0;
})
buf_of (in_file fd at size) = some (record {
  start = none;
  last = none;
  content = [];
  file = some fd;
  file_pos = pos at;
  file_last = pos (at + size);
})

abbrev pub bufs_of : List Part → List (Option Buf)
bufs_of [] = []
bufs_of (p ∷ ps) = buf_of p ∷ bufs_of ps

-- The bytes of a part, given what each open file holds.
abbrev pub contents : (ℤ → Bytes) → Part → Bytes
contents disk no_buffer = []
contents disk (in_memory address bs) = bs
contents disk (in_file fd at size) = take size (drop at (disk fd))

abbrev pub all_contents : (ℤ → Bytes) → List Part → Bytes
all_contents disk [] = []
all_contents disk (p ∷ ps) = contents disk p ++ all_contents disk ps

abbrev pub part_size : Part → ℕ
part_size no_buffer = 0
part_size (in_memory address bs) = length bs
part_size (in_file fd at size) = size

abbrev pub total_size : List Part → ℕ
total_size [] = 0
total_size (p ∷ ps) = part_size p + total_size ps

-- `isize::MAX / 2`.
abbrev pub half_isize_max : ℕ
half_isize_max = 4611686018427387903

-- A memory buffer of a possible length; a file that is open and holds the bytes of the range.
abbrev pub IsSound : (ℤ → Bytes) → Part → Type 0
IsSound disk no_buffer = Unit
IsSound disk (in_memory address bs) = suc (length bs) ≤ half_isize_max
IsSound disk (in_file fd at size) =
    (fd ≢ negsuc 0) × (at + size ≤ length (disk fd)) × (at + size ≤ i64_max)

abbrev pub AllSound : (ℤ → Bytes) → List Part → Type 0
AllSound disk [] = Unit
AllSound disk (p ∷ ps) = IsSound disk p × AllSound disk ps

pub take-length : (bs : Bytes) → take (length bs) bs ≡ bs
take-length [] = refl
take-length (b ∷ bs) = ap (λ r. b ∷ r) (take-length bs)

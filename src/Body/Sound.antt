-- ===== src/Body/Sound.antt =====
-- Facts about sound parts that both body readers use.
use ngx_inference.Prelude.{
  ℕ, zero, suc, ◌+◌, ◌-◌, ◌≤◌, ◌≡◌, refl, ◌≢◌, true, [], Option, some, ℤ, pos, negsuc, arith,
  as_usize, ◌-ℤ◌, take, drop,
}
use ngx_inference.Text.{Bytes}
use ngx_inference.Body.{isize_max, is_valid_fd, memory_range}
use ngx_inference.Body.Chunks.{ReadsFile, read_chunks, read_chunks_file, chunks}
use ngx_inference.Body.Parts.{in_file, IsSound}

pub valid_fd : (fd : ℤ) → fd ≢ negsuc 0 → is_valid_fd fd ≡ true
valid_fd (pos n) h = refl
valid_fd (negsuc zero) h = absurd (h refl)
valid_fd (negsuc (suc n)) h = refl

pub memory_range_lem : (a n : ℕ) → memory_range (some a) (some (a + n)) ≡ some n
unfolding memory_range
memory_range_lem a n = ground arith

pub file_size_lem :
    (at size : ℕ) → at + size ≤ isize_max → as_usize (pos (at + size) -ℤ pos at) ≡ size
file_size_lem at size h = ground arith

module _ (pread : ℤ → ℕ → ℤ → Option Bytes) (disk : ℤ → Bytes)
    (files : (fd : ℤ) → ReadsFile pread fd (disk fd)) where
  pub whole_file :
      (fd : ℤ) (at size : ℕ)
      → IsSound disk (in_file fd at size)
      → read_chunks pread fd (pos at) size size 0 [] ≡ chunks (take size (drop at (disk fd)))
  whole_file fd at size (valid, inside, bounded) =
      let start : at + 0 ≡ at = omega arith in
      let all : size - 0 ≡ size = omega arith in
      rw (
        read_chunks_file pread fd (disk fd) (files fd) at size inside bounded size 0 []
            (omega arith) (omega arith),
        start,
        all,
      )

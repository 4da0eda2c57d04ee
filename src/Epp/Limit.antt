-- ===== src/Epp/Limit.antt =====
-- `extract_request_body` against its specification.
use ngx_inference.Prelude.{
  ℕ, zero, suc, ◌+◌, ◌≤◌, ◌≡◌, refl, Bool, true, ◌&&◌, List, [], ◌∷◌, ◌++◌, Option, none, some, ℤ,
  arith, length, leb, if◌then◌else◌,
}
use mathlib.Core.List.{append_assoc, append-nil}
use ngx_inference.Text.{Bytes}
use ngx_inference.Config.{ModuleConfig}
use ngx_inference.Nginx.{Request}
use ngx_inference.Body.{got, err, isize_max, memory_range, walk}
use ngx_inference.Body.Chunks.{ReadsFile, length-slice}
use ngx_inference.Body.Parts.{
  Part, no_buffer, in_memory, in_file, buf_of, bufs_of, contents, all_contents, total_size, IsSound,
  AllSound, take-length,
}
use ngx_inference.Body.Sound.{valid_fd, memory_range_lem, file_size_lem, whole_file}
use ngx_inference.Epp.Body.{
  body_too_large, extract_memory, extract_file, extract_buf, body_limit, extract_request_body,
}

-- Whether the bytes so far stay within the limit at each file; memory is counted, never refused.
abbrev pub files_fit : ℕ → ℕ → List Part → Bool
files_fit max total [] = true
files_fit max total (no_buffer ∷ ps) = files_fit max total ps
files_fit max total (in_memory address bs ∷ ps) = files_fit max (total + length bs) ps
files_fit max total (in_file fd at zero ∷ ps) = files_fit max total ps
files_fit max total (in_file fd at (suc size) ∷ ps) =
    leb (total + suc size) max && files_fit max (total + suc size) ps

module _ (pread : ℤ → ℕ → ℤ → Option Bytes) (disk : ℤ → Bytes)
    (files : (fd : ℤ) → ReadsFile pread fd (disk fd)) (max : ℕ) where
  extract_memory_part :
      (address : ℕ) (m bs : Bytes) (total : ℕ)
      → IsSound disk (in_memory address m)
      → total + length m ≤ isize_max
      → extract_buf pread max (buf_of (in_memory address m)) bs total
        ≡ got (bs ++ m) (total + length m)
  unfolding extract_buf extract_memory
  extract_memory_part address [] bs total s h =
      ground (arith, append-nil bs, memory_range_lem address 0)
  extract_memory_part address (c ∷ m) bs total s h =
      ground (arith, memory_range_lem address (length (c ∷ m)), take-length (c ∷ m))

  extract_empty_file :
      (fd : ℤ) (at : ℕ) (bs : Bytes) (total : ℕ)
      → IsSound disk (in_file fd at 0)
      → extract_buf pread max (buf_of (in_file fd at 0)) bs total ≡ got bs total
  unfolding extract_buf extract_memory memory_range extract_file
  extract_empty_file fd at bs total s = ground arith

  extract_file_part :
      (fd : ℤ) (at size : ℕ) (bs : Bytes) (total : ℕ)
      → IsSound disk (in_file fd at (suc size))
      → total + suc size ≤ isize_max
      → extract_buf pread max (buf_of (in_file fd at (suc size))) bs total ≡ (
          if leb (total + suc size) max
          then got (bs ++ contents disk (in_file fd at (suc size))) (total + suc size)
          else err body_too_large)
  unfolding extract_buf extract_memory memory_range extract_file
  extract_file_part fd at size bs total s h = ground (
    arith,
    file_size_lem at (suc size),
    valid_fd fd s.0,
    whole_file pread disk files fd at (suc size) s,
    length-slice (suc size) at (disk fd) s.1,
  )

  extract_no_buffer : (bs : Bytes) (total : ℕ) → extract_buf pread max none bs total ≡ got bs total
  unfolding extract_buf
  extract_no_buffer bs total = refl

  extract_parts :
      (ps : List Part) (bs : Bytes) (total : ℕ)
      → AllSound disk ps
      → total + total_size ps ≤ isize_max
      → walk (extract_buf pread max) (bufs_of ps) bs total ≡ (
          if files_fit max total ps
          then got (bs ++ all_contents disk ps) (total + total_size ps)
          else err body_too_large)
  unfolding walk
  extract_parts [] bs total s h = ground (arith, append-nil bs)
  extract_parts (no_buffer ∷ ps) bs total s h =
      rw (extract_no_buffer bs total) (ground (arith, extract_parts ps bs total s.1))
  extract_parts (in_memory address m ∷ ps) bs total s h =
      rw (extract_memory_part address m bs total s.0 (omega arith)) (
        ground (
          arith,
          extract_parts ps (bs ++ m) (total + length m) s.1,
          append_assoc bs m (all_contents disk ps),
        ))
  extract_parts (in_file fd at zero ∷ ps) bs total s h =
      rw (extract_empty_file fd at bs total s.0) (ground (arith, extract_parts ps bs total s.1))
  extract_parts (in_file fd at (suc size) ∷ ps) bs total s h =
      rw (extract_file_part fd at size bs total s.0 (omega arith)) (
        ground (
          arith,
          extract_parts ps (bs ++ contents disk (in_file fd at (suc size))) (total + suc size) s.1,
          append_assoc bs (contents disk (in_file fd at (suc size))) (all_contents disk ps),
        ))

-- With `pread` as POSIX has it, a body of sound parts that has at most `isize::MAX` bytes is
-- read whole and in order exactly when at each file the bytes so far, with that file's, are at
-- most the limit; the bytes of a memory buffer count at the files after it, and a memory buffer
-- is never refused itself. Otherwise the error is that the body is too large.
pub extract_request_body_lem :
    (pread : ℤ → ℕ → ℤ → Option Bytes) (disk : ℤ → Bytes) (conf : Option ModuleConfig) (r : Request)
    (ps : List Part) (rest : ℤ) (handler : Bool)
    → ((fd : ℤ) → ReadsFile pread fd (disk fd))
    → AllSound disk ps
    → total_size ps ≤ isize_max
    → r.request_body ≡ some (record { bufs = bufs_of ps; rest = rest; post_handler = handler })
    → extract_request_body pread conf r ≡ (
        if files_fit (body_limit conf) 0 ps
        then got (all_contents disk ps) (total_size ps)
        else err body_too_large)
unfolding extract_request_body
extract_request_body_lem pread disk conf r ps rest handler files s small e =
    ground (arith, extract_parts pread disk files (body_limit conf) ps [] 0 s (omega arith))

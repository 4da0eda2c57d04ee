-- ===== src/Bbr/Limit.antt =====
-- `read_request_body` against its specification: the concatenation of the parts, or 413.
use ngx_inference.Prelude.{
  ℕ, zero, suc, ◌+◌, ◌≤◌, ◌≡◌, Bool, List, [], ◌∷◌, ◌++◌, Option, some, ℤ, pos, arith, length, leb,
  if◌then◌else◌,
}
use mathlib.Core.List.{append_assoc, append-nil}
use ngx_inference.Text.{Bytes}
use ngx_inference.Config.{ModuleConfig}
use ngx_inference.Nginx.{Request, Nginx}
use ngx_inference.Body.{BufRead, got, err, isize_max, memory_range, walk}
use ngx_inference.Body.Chunks.{ReadsFile, length-slice}
use ngx_inference.Body.Parts.{
  Part, no_buffer, in_memory, in_file, buf_of, bufs_of, contents, all_contents, part_size,
  total_size, IsSound, AllSound, take-length,
}
use ngx_inference.Body.Sound.{valid_fd, memory_range_lem, file_size_lem, whole_file}
use ngx_inference.Bbr.Body.{
  BodyError, too_large, read_memory, read_file, read_buf, BodyResult, body, failed,
  entity_too_large, read_request_body,
}

module _ (pread : ℤ → ℕ → ℤ → Option Bytes) (disk : ℤ → Bytes)
    (files : (fd : ℤ) → ReadsFile pread fd (disk fd)) (max : ℕ) (possible : max ≤ isize_max) where
  abbrev Step : Part → Bytes → ℕ → BufRead BodyError
  Step p bs total =
      if leb (total + part_size p) max
      then got (bs ++ contents disk p) (total + part_size p)
      else err too_large

  read_file_part :
      (fd : ℤ) (at size : ℕ) (bs : Bytes) (total : ℕ)
      → IsSound disk (in_file fd at size)
      → total ≤ max
      → read_file pread max fd (pos at) (pos (at + size)) bs total
        ≡ Step (in_file fd at size) bs total
  unfolding read_file
  read_file_part fd at zero bs total s h =
      rw (file_size_lem at 0 (omega arith)) (ground (arith, append-nil bs))
  read_file_part fd at (suc size) bs total s h =
      rw
        (
          file_size_lem at (suc size) (omega (arith, s.2)),
          valid_fd fd s.0,
          whole_file pread disk files fd at (suc size) s,
        )
        (ground (arith, length-slice (suc size) at (disk fd) s.1))

  read_buf_file :
      (fd : ℤ) (at size : ℕ) (bs : Bytes) (total : ℕ)
      → IsSound disk (in_file fd at size)
      → total ≤ max
      → read_buf pread max (buf_of (in_file fd at size)) bs total
        ≡ Step (in_file fd at size) bs total
  unfolding read_buf read_memory memory_range
  read_buf_file fd at size bs total s h = read_file_part fd at size bs total s h

  -- One buffer: its bytes are added, unless that would pass the limit.
  read_buf_part :
      (p : Part) (bs : Bytes) (total : ℕ)
      → IsSound disk p
      → total ≤ max
      → read_buf pread max (buf_of p) bs total ≡ Step p bs total
  unfolding read_buf read_memory
  read_buf_part no_buffer bs total s h = ground (arith, append-nil bs)
  read_buf_part (in_memory address []) bs total s h =
      ground (arith, append-nil bs, memory_range_lem address 0)
  read_buf_part (in_memory address (c ∷ m)) bs total s h =
      ground (arith, memory_range_lem address (length (c ∷ m)), take-length (c ∷ m))
  read_buf_part (in_file fd at size) bs total s h = read_buf_file fd at size bs total s h

  -- The walk: all the bytes in order, or the error as soon as the limit is passed.
  walk_parts :
      (ps : List Part) (bs : Bytes) (total : ℕ)
      → AllSound disk ps
      → total ≤ max
      → walk (read_buf pread max) (bufs_of ps) bs total ≡ (
          if leb (total + total_size ps) max
          then got (bs ++ all_contents disk ps) (total + total_size ps)
          else err too_large)
  unfolding walk
  walk_parts [] bs total s h = ground (arith, append-nil bs)
  walk_parts (p ∷ ps) bs total s h = rw (read_buf_part p bs total s.0 h) (
      ground (
        arith,
        walk_parts ps (bs ++ contents disk p) (total + part_size p) s.1,
        append_assoc bs (contents disk p) (all_contents disk ps),
      ))

-- What the reader must return for the parts.
abbrev pub expected_body : ℕ → (ℤ → Bytes) → List Part → Request → Request × BodyResult
expected_body max disk ps r =
    if leb (total_size ps) max
    then (r, body (all_contents disk ps))
    else (record r { status = entity_too_large }, failed)

-- With `pread` as POSIX has it and a limit that fits an `isize`, a body that consists of sound parts
-- is read whole and in order when it is at most `max_body_size` bytes long, whether it is in
-- memory, in files or in both; a longer one gives the error with the status set to 413.
pub read_request_body_lem :
    (ngx : Nginx) (disk : ℤ → Bytes) (conf : ModuleConfig) (r : Request) (ps : List Part) (rest : ℤ)
    (handler : Bool)
    → ((fd : ℤ) → ReadsFile ngx.pread fd (disk fd))
    → conf.max_body_size ≤ isize_max
    → AllSound disk ps
    → r.request_body ≡ some (record { bufs = bufs_of ps; rest = rest; post_handler = handler })
    → read_request_body ngx conf r ≡ expected_body conf.max_body_size disk ps r
unfolding read_request_body
read_request_body_lem ngx disk conf r ps rest handler files possible s e =
    ground
      (arith, walk_parts ngx.pread disk files conf.max_body_size possible ps [] 0 s (omega arith))

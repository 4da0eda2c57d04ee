-- ===== src/Epp/Body.antt =====
-- `extract_request_body` of src/epp/callbacks.rs: only the file-backed buffers are held to
-- `max_body_size`.
use ngx_inference.Prelude.{
  ℕ, ◌&&◌, Bool, true, false, [], ◌++◌, Option, none, some, ℤ, pos, negsuc, ltb, take,
  if◌then◌else◌, add_usize, as_usize, ◌-ℤ◌,
}
use ngx_inference.Text.{Bytes}
use ngx_inference.Config.{ModuleConfig, ten_megabytes}
use ngx_inference.Nginx.{Buf, Request}
use ngx_inference.Body.{
  BufRead, got, err, aborted, memory_range, isize_max, is_valid_fd, append_chunks, and_then, walk,
}
use ngx_inference.Body.Chunks.{read_chunks}

pub data ExtractError : Type 0 where
  invalid_range body_too_large file_read_error : ExtractError

-- The part for memory-backed buffers: a length of 2^62 - 1 or more is passed over.
unfoldable pub extract_memory : Buf → Bytes → ℕ → BufRead ExtractError
extract_memory buf body total = elim (memory_range buf.start buf.last) [
  | none ↦ got body total
  | some len ↦
      if ltb 0 len && ltb len 4611686018427387903
      then got (body ++ take len buf.content) (add_usize total len)
      else got body total
]

-- `file_last < file_pos`.
abbrev is_negative : ℤ → Bool
is_negative (pos n) = false
is_negative (negsuc n) = true

-- The part for file-backed buffers, once there is a file.
unfoldable pub extract_file :
    (ℤ → ℕ → ℤ → Option Bytes) → ℕ → ℤ → ℤ → ℤ → Bytes → ℕ → BufRead ExtractError
extract_file pread max fd file_pos file_last body total =
    let file_size = as_usize (file_last -ℤ file_pos) in
    if is_negative (file_last -ℤ file_pos)
    then err invalid_range
    else if ltb 0 file_size
    then (if ltb max (add_usize total file_size)
        then err body_too_large
        else if is_valid_fd fd
        then (if ltb isize_max file_size
            then aborted
            else append_chunks file_read_error body total
                (read_chunks pread fd file_pos file_size file_size 0 []))
        else got body total)
    else got body total

-- One round of the walk.
unfoldable pub extract_buf :
    (ℤ → ℕ → ℤ → Option Bytes) → ℕ → Option Buf → Bytes → ℕ → BufRead ExtractError
extract_buf pread max none body total = got body total
extract_buf pread max (some buf) body total =
    and_then (extract_memory buf body total) λ body' total'. elim buf.file [
      | none ↦ got body' total'
      | some fd ↦ extract_file pread max fd buf.file_pos buf.file_last body' total'
    ]

-- `max_body_size` of the configuration, or its default.
abbrev pub body_limit : Option ModuleConfig → ℕ
body_limit none = ten_megabytes
body_limit (some conf) = conf.max_body_size

-- A null body and a null chain both give the empty text.
unfoldable pub extract_request_body :
    (ℤ → ℕ → ℤ → Option Bytes) → Option ModuleConfig → Request → BufRead ExtractError
extract_request_body pread conf r = elim r.request_body [
  | none ↦ got [] 0
  | some b ↦ walk (extract_buf pread (body_limit conf)) b.bufs [] 0
]

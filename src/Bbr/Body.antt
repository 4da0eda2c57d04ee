-- ===== src/Bbr/Body.antt =====
-- `read_request_body` of src/modules/bbr.rs: every byte counts against `max_body_size`.
use ngx_inference.Prelude.{
  ℕ, ◌*◌, List, [], ◌++◌, Option, none, some, ℤ, ltb, min, take, if◌then◌else◌, add_usize, as_usize,
  ◌-ℤ◌,
}
use ngx_inference.Text.{Bytes, bytes, parse_uint}
use ngx_inference.Config.{ModuleConfig, max_word}
use ngx_inference.Nginx.{Buf, Request, Nginx}
use ngx_inference.Nginx.Headers.{get_header_in}
use ngx_inference.Body.{
  BufRead, got, err, aborted, unfinished, memory_range, isize_max, is_valid_fd, append_chunks,
  and_then, walk,
}
use ngx_inference.Body.Chunks.{read_chunks}

-- The two ways to return `Err(())`: with the status set to 413 before, and without.
pub data BodyError : Type 0 where
  too_large broken : BodyError

-- The part for memory-backed buffers. A difference of 2^63 or more is negative as an `isize`.
unfoldable pub read_memory : ℕ → Buf → Bytes → ℕ → BufRead BodyError
read_memory max buf body total = elim (memory_range buf.start buf.last) [
  | none ↦ got body total
  | some len ↦
      if ltb isize_max len
      then err broken
      else if ltb 4611686018427387903 len
      then err too_large
      else if ltb 0 len
      then (if ltb max (add_usize total len)
          then err too_large
          else got (body ++ take len buf.content) (add_usize total len))
      else got body total
]

-- The part for file-backed buffers, once there is a file.
unfoldable pub read_file :
    (ℤ → ℕ → ℤ → Option Bytes) → ℕ → ℤ → ℤ → ℤ → Bytes → ℕ → BufRead BodyError
read_file pread max fd file_pos file_last body total =
    let file_size = as_usize (file_last -ℤ file_pos) in
    if ltb 0 file_size
    then (if ltb max (add_usize total file_size)
        then err too_large
        else if is_valid_fd fd
        then (if ltb isize_max file_size
            then aborted
            else append_chunks broken body total
                (read_chunks pread fd file_pos file_size file_size 0 []))
        else got body total)
    else got body total

-- One round of the walk.
unfoldable pub read_buf :
    (ℤ → ℕ → ℤ → Option Bytes) → ℕ → Option Buf → Bytes → ℕ → BufRead BodyError
read_buf pread max none body total = got body total
read_buf pread max (some buf) body total = and_then (read_memory max buf body total) λ body' total'.
    elim buf.file [
      | none ↦ got body' total'
      | some fd ↦ read_file pread max fd buf.file_pos buf.file_last body' total'
    ]

abbrev pub max_body_prealloc : ℕ
max_body_prealloc = 1024 * 1024

-- The capacity that is reserved: what `Content-Length` says, capped.
unfoldable pub safe_capacity : List (Bytes × Bytes) → ℕ
safe_capacity headers = elim (get_header_in headers (bytes "Content-Length")) [
  | none ↦ 0
  | some s ↦ elim (parse_uint max_word s) [ none ↦ 0 | some n ↦ min n max_body_prealloc ]
]

pub data BodyResult : Type 0 where
  body : Bytes → BodyResult
  failed panicked diverged : BodyResult

abbrev pub entity_too_large : ℕ
entity_too_large = 413

-- What the walk's outcome does to the request: `set_413_error` sets the status.
unfoldable pub finish_body : Request → BufRead BodyError → Request × BodyResult
finish_body r (got bs total) = (r, body bs)
finish_body r (err too_large) = (record r { status = entity_too_large }, failed)
finish_body r (err broken) = (r, failed)
finish_body r aborted = (r, panicked)
finish_body r unfinished = (r, diverged)

-- A null body and a null chain both give the empty text.
unfoldable pub read_request_body : Nginx → ModuleConfig → Request → Request × BodyResult
unfolding finish_body
read_request_body ngx conf r = elim r.request_body [
  | none ↦ (r, body [])
  | some b ↦ finish_body r (walk (read_buf ngx.pread conf.max_body_size) b.bufs [] 0)
]

-- ===== src/Nginx.antt =====
-- The request as nginx holds it, and what the module asks of nginx and of the kernel.
-- The structures are nginx's (`ngx_http_request_t`, `ngx_buf_t`), reduced to the fields that the
-- module reads or writes; the functions of nginx that return something are the parameter `Nginx`,
-- and the others are recorded in `calls`, the latest last.
pub mod Headers
use ngx_inference.Prelude.{
  ℕ, ◌==◌, Bool, List, [], ◌∷◌, ◌++◌, Option, none, some, ℤ, pos, negsuc, map, ◌≡◌,
}
use ngx_inference.Text.{Bytes}

-- `ngx_buf_t`. `content` is the memory that begins at `pos`; a null pointer is `none`.
pub record Buf : Type 0 where
  pub start : Option ℕ  -- `pos`
  pub last : Option ℕ
  pub content : Bytes
  pub file : Option ℤ  -- the descriptor of `file`
  pub file_pos : ℤ  -- off_t
  pub file_last : ℤ

-- `ngx_http_request_body_t`; a chain link whose buffer is null is a `none` of the list.
pub record RequestBody : Type 0 where
  pub bufs : List (Option Buf)
  pub rest : ℤ
  pub post_handler : Bool

pub data WriteHandler : Type 0 where
  core_run_phases other_handler : WriteHandler

-- A call that the module makes and whose result it does not read.
pub data Call : Type 0 where
  run_phases : Call
  special_response : ℕ → Call
  finalize : ℤ → Call
  -- A panic inside a C callback ends the worker process.
  abort : Call
  -- The model's own mark for a loop whose fuel ran out.
  out_of_fuel : Call

pub record Request : Type 0 where
  pub headers_in : List (Bytes × Bytes)
  pub status : ℕ  -- headers_out.status
  pub request_body : Option RequestBody
  pub write_event_handler : WriteHandler
  pub connection : Bool  -- not null
  pub count : ℕ
  pub calls : List Call

abbrev pub call : Call → Request → Request
call c r = record r { calls = r.calls ++ (c ∷ []) }

-- `ngx_http_special_response_handler` and `ngx_http_finalize_request` with an HTTP code.
abbrev pub respond : ℕ → Request → Request
respond code r = call (finalize (pos code)) (call (special_response code) r)

-- `core::Status`, and the HTTP codes that a phase handler returns.
pub data Status : Type 0 where
  ngx_ok ngx_again ngx_done ngx_declined ngx_error : Status
  http_status : ℕ → Status

-- The values of `Status` as `ngx_int_t`.
abbrev pub is_run_phases : WriteHandler → Bool
is_run_phases core_run_phases = Bool.true
is_run_phases other_handler = Bool.false

abbrev pub ok_code : ℤ
ok_code = pos 0

abbrev pub done_code : ℤ
done_code = negsuc 3

-- The test `rc == NGX_AGAIN`, which is -2.
abbrev pub is_again : ℤ → Bool
is_again (pos n) = Bool.false
is_again (negsuc n) = n == 1

-- What nginx and the kernel provide.
pub record Nginx : Type 0 where
  -- `pread(fd, _, count, offset)`: the bytes read, or `none` for a negative result.
  pub pread : ℤ → ℕ → ℤ → Option Bytes
  -- `Request::add_header_in`, and whether it succeeded.
  pub add_header_in : Bytes → Bytes → Request → Request × Bool
  -- `ngx_http_read_client_request_body` with its handler.
  pub read_client_request_body : (Request → Request) → Request → Request × ℤ

-- Adding a header, as the crate documents it: on success the header is the last of the list, and
-- nothing else of the request changes; on failure nothing does.
pub record AddsHeader (ngx : Nginx) : Type 0 where
  pub added :
      (k v : Bytes) (r : Request)
      → (ngx.add_header_in k v r).1 ≡ Bool.true
      → (ngx.add_header_in k v r).0 ≡ record r { headers_in = r.headers_in ++ ((k, v) ∷ []) }
  pub not_added :
      (k v : Bytes) (r : Request)
      → (ngx.add_header_in k v r).1 ≡ Bool.false
      → (ngx.add_header_in k v r).0 ≡ r

-- Clearing `request_body.post_handler`, where there is a body.
abbrev pub clear_post_handler : Option RequestBody → Option RequestBody
clear_post_handler none = none
clear_post_handler (some b) = some (record b { post_handler = Bool.false })

-- ===== src/Bbr/Once.antt =====
-- The two passes of the access phase over one request: after the callback has set the header, the
-- second pass must leave the request alone.
use ngx_inference.Prelude.{
  ◌≤◌, ◌≡◌, ◌∙◌, ap, true, false, ◌⊎◌, inl, inr, List, ◌++◌, none, some, ℤ, arith, Option-cases,
}
use ngx_inference.Text.{Bytes, is_empty}
use ngx_inference.Utf8.{is_utf8}
use ngx_inference.Config.{ModuleConfig}
use ngx_inference.Model.{Json, TextIsUtf8, extract_model_from_body, extract_model-utf8}
use ngx_inference.Nginx.{Request, Nginx, AddsHeader, ngx_done, ngx_declined, ngx_error}
use ngx_inference.Nginx.Headers.{
  Headers, has_name, get_header_in, get_header_in-append, get_header_in-added,
}
use ngx_inference.Body.{isize_max}
use ngx_inference.Body.Parts.{Part, all_contents, total_size}
use ngx_inference.Bbr.{
  bbr_header, body_read_handler, after_read_call, start_body_reading, process_request,
}
use ngx_inference.Bbr.Handler.{HasBody, model_or_default, handler_sets_header}

model_or_default-utf8 :
    (json : Json) (conf : ModuleConfig) (bs : Bytes)
    → TextIsUtf8 json
    → is_utf8 conf.bbr_default_model ≡ true
    → is_utf8 (model_or_default json conf bs) ≡ true
model_or_default-utf8 json conf bs u d = elim (Option-cases (extract_model_from_body json bs)) [
  | inl missing ↦ rw (missing, model_or_default) d
  | inr (m, found) ↦ rw (found, model_or_default) (extract_model-utf8 json bs u found)
]

pub declines :
    (ngx : Nginx) (json : Json) (conf : ModuleConfig) (r : Request) {value : Bytes}
    → get_header_in r.headers_in (bbr_header conf) ≡ some value
    → process_request ngx json conf r ≡ (r, ngx_declined)
unfolding process_request
declines ngx json conf r h = ground arith

-- Where nginx adds headers as documented and has room for them, JSON texts, the header name and
-- the default model are UTF-8, `pread` is as POSIX has it, and the limit fits an `isize`: once
-- the callback has run for a request without the header, over a complete body of sound parts
-- that is not empty and within the limit, the header holds the model of the body (or the
-- default), and a second pass of BBR declines and changes nothing.
pub second_pass_declines :
    (ngx : Nginx) (json : Json) (disk : ℤ → Bytes) (conf : ModuleConfig) (ps : List Part)
    (r : Request)
    → AddsHeader ngx
    → ((k v : Bytes) (q : Request) → (ngx.add_header_in k v q).1 ≡ true)
    → TextIsUtf8 json
    → HasBody ngx disk ps r
    → conf.max_body_size ≤ isize_max
    → is_utf8 (bbr_header conf) ≡ true
    → is_utf8 conf.bbr_default_model ≡ true
    → has_name r.headers_in (bbr_header conf) ≡ false
    → total_size ps ≤ conf.max_body_size
    → is_empty (all_contents disk ps) ≡ false
    → let r' = body_read_handler ngx json (some conf) r in
      (get_header_in r'.headers_in (bbr_header conf)
        ≡ some (model_or_default json conf (all_contents disk ps)))
      × (process_request ngx json conf r' ≡ (r', ngx_declined))
second_pass_declines ngx json disk conf ps r adds room u b possible name model absent small full =
    let e = handler_sets_header ngx adds room json conf disk ps r b possible absent small full in
    let found =
      ap (λ (q : Request). get_header_in q.headers_in (bbr_header conf)) e
      ∙ get_header_in-added r.headers_in (bbr_header conf)
          (model_or_default json conf (all_contents disk ps)) absent name
          (model_or_default-utf8 json conf (all_contents disk ps) u model) in
    (found, declines ngx json conf (body_read_handler ngx json (some conf) r) found)

-- BBR never reports NGX_OK, NGX_AGAIN or an HTTP status: it declines, is done, or fails.
pub process_request_status :
    (ngx : Nginx) (json : Json) (conf : ModuleConfig) (r : Request)
    → let s = (process_request ngx json conf r).1 in
      (s ≡ ngx_declined) ⊎ ((s ≡ ngx_done) ⊎ (s ≡ ngx_error))
unfolding process_request start_body_reading after_read_call
process_request_status ngx json conf r = ground arith

-- With BBR on, for a request whose first header of the name has a value that is not UTF-8:
-- whatever is appended, BBR does not see it, and every further pass begins to read the body
-- again.
pub shadowed_reads_again :
    (ngx : Nginx) (json : Json) (conf : ModuleConfig) (r : Request) (more : Headers)
    → conf.bbr_enable ≡ true
    → has_name r.headers_in (bbr_header conf) ≡ true
    → get_header_in r.headers_in (bbr_header conf) ≡ none
    → let r' = record r { headers_in = r.headers_in ++ more } in
      process_request ngx json conf r' ≡ start_body_reading ngx json conf r'
unfolding process_request
shadowed_reads_again ngx json conf r more on named hidden =
    ground (arith, get_header_in-append r.headers_in more (bbr_header conf))

-- ===== src/Access/Stages.antt =====
-- How `inference_access_handler` (src/lib.rs) puts its two stages together.
use ngx_inference.Prelude.{◌≤◌, ◌≡◌, true, false, List, none, some, ℤ, ◌⊎◌, arith}
use ngx_inference.Text.{Bytes, is_empty}
use ngx_inference.Utf8.{is_utf8}
use ngx_inference.Config.{ModuleConfig}
use ngx_inference.Nginx.{
  Request, Nginx, AddsHeader, Status, ngx_ok, ngx_again, ngx_done, ngx_declined, ngx_error,
  http_status,
}
use ngx_inference.Nginx.Headers.{has_name, get_header_in}
use ngx_inference.Model.{Json, TextIsUtf8}
use ngx_inference.Body.{isize_max}
use ngx_inference.Body.Parts.{Part, all_contents, total_size}
use ngx_inference.Bbr.{
  process_request, internal_server_error, bbr_header, body_read_handler, start_body_reading,
  after_read_call,
}
use ngx_inference.Bbr.Handler.{HasBody}
use ngx_inference.Bbr.Once.{second_pass_declines, process_request_status}
use ngx_inference.Epp.Failure.{bad_gateway}
use ngx_inference.Epp.Start.{Job, Host}
use ngx_inference.Epp.Processor
use ngx_inference.Access.{after_epp, epp_stage, after_bbr, inference_access_handler}

after_epp_status :
    (conf : ModuleConfig) (job : Job) (s : Status)
    → let t = (after_epp conf (job, s)).1 in
      (t ≡ ngx_declined)
      ⊎ ((t ≡ ngx_done) ⊎ ((t ≡ http_status bad_gateway) × (conf.epp_failure_mode_allow ≡ false)))
unfolding after_epp
after_epp_status conf job ngx_ok = ground arith
after_epp_status conf job ngx_again = ground arith
after_epp_status conf job ngx_done = ground arith
after_epp_status conf job ngx_declined = ground arith
after_epp_status conf job ngx_error = ground arith
after_epp_status conf job (http_status n) = ground arith

-- What a configured location can answer in the access phase: go on, wait, 500 for the first stage,
-- or 502 for the second, and the last only when that fails closed.
abbrev pub Answers : ModuleConfig → Status → Type 0
Answers conf s =
    (s ≡ ngx_declined)
    ⊎ ((s ≡ ngx_done)
        ⊎ (((s ≡ http_status internal_server_error) × (conf.bbr_enable ≡ true))
            ⊎ ((s ≡ http_status bad_gateway) × (conf.epp_failure_mode_allow ≡ false))))

epp_stage_status :
    (host : Host) (conf : ModuleConfig) (r : Request) → Answers conf (epp_stage host conf r).1
unfolding epp_stage
epp_stage_status host conf r =
    let p = Processor.process_request host conf r in grind (arith, after_epp_status conf p.0 p.1)

after_bbr_status :
    (host : Host) (conf : ModuleConfig) (p : Request × Status)
    → conf.bbr_enable ≡ true
    → (p.1 ≡ ngx_declined) ⊎ ((p.1 ≡ ngx_done) ⊎ (p.1 ≡ ngx_error))
    → Answers conf (after_bbr host conf p).1
unfolding after_bbr
after_bbr_status host conf p on h = grind (arith, epp_stage_status host conf p.0)

-- A configured location declines, waits, or answers with an error: 500 only when body-based routing
-- is on, 502 only when the endpoint picker fails closed. It never returns NGX_OK.
pub access_status :
    (ngx : Nginx) (json : Json) (host : Host) (conf : ModuleConfig) (r : Request)
    → Answers conf (inference_access_handler ngx json host (some conf) r).1
unfolding inference_access_handler
access_status ngx json host conf r = grind (
  arith,
  after_bbr_status host conf (process_request ngx json conf r),
  process_request_status ngx json conf r,
  epp_stage_status host conf r,
)

-- With body-based routing on and its header not found, the pass that reads the body for the
-- first stage starts no call of the second, and returns NGX_DONE or 500.
pub reading_starts_no_call :
    (ngx : Nginx) (json : Json) (host : Host) (conf : ModuleConfig) (r : Request)
    → conf.bbr_enable ≡ true
    → get_header_in r.headers_in (bbr_header conf) ≡ none
    → let (job, status) = inference_access_handler ngx json host (some conf) r in
      (job.world ≡ none) × ((status ≡ ngx_done) ⊎ (status ≡ http_status internal_server_error))
unfolding inference_access_handler process_request after_bbr start_body_reading after_read_call
reading_starts_no_call ngx json host conf r on absent = ground arith

-- Under the conditions of the second pass of BBR (room for headers, UTF-8 names and texts,
-- `pread` as POSIX has it, a limit that fits an `isize`, a complete body of sound parts that is
-- not empty and within the limit, no such header yet): after the callback has run, the next pass
-- of the access phase is the second stage alone, for the request as the callback left it.
pub second_pass_picks :
    (ngx : Nginx) (json : Json) (host : Host) (disk : ℤ → Bytes) (conf : ModuleConfig)
    (ps : List Part) (r : Request)
    → AddsHeader ngx
    → ((k v : Bytes) (q : Request) → (ngx.add_header_in k v q).1 ≡ true)
    → TextIsUtf8 json
    → HasBody ngx disk ps r
    → conf.max_body_size ≤ isize_max
    → is_utf8 (bbr_header conf) ≡ true
    → is_utf8 conf.bbr_default_model ≡ true
    → has_name r.headers_in (bbr_header conf) ≡ false
    → total_size ps ≤ conf.max_body_size
    → is_empty (all_contents disk ps) ≡ false
    → let r' = body_read_handler ngx json (some conf) r in
      inference_access_handler ngx json host (some conf) r' ≡ epp_stage host conf r'
unfolding inference_access_handler after_bbr
second_pass_picks ngx json host disk conf ps r adds room u b possible name model absent small full =
    let r' = body_read_handler ngx json (some conf) r in
    let (header, again) =
      second_pass_declines ngx json disk conf ps r adds room u b possible name model absent small
        full in
    ground arith

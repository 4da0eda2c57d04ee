-- ===== src/Bbr.antt =====
-- Body-based routing (src/modules/bbr.rs): the access-phase entry, and the callback that runs when
-- the body has been read.
pub mod Body
pub mod Limit
pub mod Bounded
pub mod Handler
pub mod Once
mod Tests
use ngx_inference.Prelude.{
  ℕ, Bool, true, false, List, [], ◌∷◌, Option, none, some, ℤ, pos, is_some, is_positive, eq_nat,
  ◌==◌, if◌then◌else◌,
}
use ngx_inference.Text.{Bytes, is_empty}
use ngx_inference.Config.{ModuleConfig, model_header}
use ngx_inference.Model.{Json, extract_model_from_body}
use ngx_inference.Nginx.{
  RequestBody, Request, Nginx, Call, run_phases, finalize, abort, out_of_fuel, call, respond,
  Status, ngx_done, ngx_declined, ngx_error, is_run_phases, core_run_phases, done_code, is_again,
  clear_post_handler,
}
use ngx_inference.Nginx.Headers.{get_header_in}
use Body.{BodyResult, body, failed, panicked, diverged, entity_too_large, read_request_body}

-- The header that BBR sets.
unfoldable pub bbr_header : ModuleConfig → Bytes
bbr_header conf = if is_empty conf.bbr_header_name then model_header else conf.bbr_header_name

abbrev pub internal_server_error : ℕ
internal_server_error = 500

-- Resuming the phases, where the write handler is the one that runs them.
unfoldable pub resume_phases : Request → Request
resume_phases r = if is_run_phases r.write_event_handler then call run_phases r else r

-- Setting the header to the model of the body, or to the default; a failure is only logged.
unfoldable pub set_model_header : Nginx → Json → ModuleConfig → Bytes → Request → Request
set_model_header ngx json conf bs r = elim (extract_model_from_body json bs) [
  | some model_name ↦ (ngx.add_header_in (bbr_header conf) model_name r).0
  | none ↦ (ngx.add_header_in (bbr_header conf) conf.bbr_default_model r).0
]

-- The callback, from the result of reading the body on.
unfoldable pub route_body : Nginx → Json → ModuleConfig → Request × BodyResult → Request
route_body ngx json conf (r, body bs) =
    if is_empty bs then r else resume_phases (set_model_header ngx json conf bs r)
route_body ngx json conf (r, failed) =
    if r.status == entity_too_large
    then respond entity_too_large r
    else respond internal_server_error r
route_body ngx json conf (r, panicked) = call abort r
route_body ngx json conf (r, diverged) = call out_of_fuel r

-- The callback, once the body is complete and there is a configuration.
unfoldable pub process_body : Nginx → Json → ModuleConfig → Request → Request
process_body ngx json conf r =
    if is_some (get_header_in r.headers_in (bbr_header conf))
    then r
    else route_body ngx json conf
        (read_request_body ngx conf (record r { request_body = clear_post_handler r.request_body }))

-- `bbr_body_read_handler`.
unfoldable pub body_read_handler : Nginx → Json → Option ModuleConfig → Request → Request
body_read_handler ngx json conf r = elim r.request_body [
  | none ↦ r
  | some b ↦
      if is_positive b.rest then r else elim conf [ none ↦ r | some c ↦ process_body ngx json c r ]
]

-- The last part of `start_body_reading`: what is done with the code of the read call.
unfoldable pub after_read_call : Request → ℤ → Request × Status
after_read_call r rc =
    if eq_nat rc 0
    then (call (finalize done_code) r, ngx_done)
    else if is_again rc
    then (call (finalize done_code) (record r { write_event_handler = core_run_phases }), ngx_done)
    else (r, ngx_error)

unfoldable pub start_body_reading : Nginx → Json → ModuleConfig → Request → Request × Status
start_body_reading ngx json conf r =
    let (r', rc) = ngx.read_client_request_body (body_read_handler ngx json (some conf)) r in
    after_read_call r' rc

-- `BbrProcessor::process_request`.
unfoldable pub process_request : Nginx → Json → ModuleConfig → Request → Request × Status
process_request ngx json conf r =
    if conf.bbr_enable
    then (if is_some (get_header_in r.headers_in (bbr_header conf))
        then (r, ngx_declined)
        else start_body_reading ngx json conf r)
    else (r, ngx_declined)

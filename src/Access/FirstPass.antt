-- ===== src/Access/FirstPass.antt =====
-- The endpoint picker alone (src/lib.rs, src/epp/mod.rs, src/epp/callbacks.rs): the first pass of the access
-- phase, which has to read the body.
use ngx_inference.Prelude.{ℕ, ◌≡◌, ◌∙◌, true, false, none, some, ℤ, pos, negsuc, ge_nat, leb, arith}
use ngx_inference.Text.{Bytes}
use ngx_inference.Config.{ModuleConfig}
use ngx_inference.Nginx.{
  Request, Nginx, ngx_done, call, finalize, done_code, is_again, core_run_phases,
}
use ngx_inference.Nginx.Headers.{get_header_in}
use ngx_inference.Model.{Json}
use ngx_inference.Body.{got}
use ngx_inference.Epp.Context.{
  create_eventfd, configured_endpoint, epp_header, make_context, new_watcher,
}
use ngx_inference.Epp.Body.{extract_request_body}
use ngx_inference.Epp.Start.{
  Host, no_call, setup_result_timer, start_call, callback_call, callback_body, body_read_done,
  after_epp_read, read_body_async,
}
use ngx_inference.Epp.Timer.{World, start}
use ngx_inference.Epp.Processor
use ngx_inference.Epp.Processor.{by_body, with_endpoint}
use ngx_inference.Access.{after_epp, epp_stage, inference_access_handler}

-- The call for a request whose body has been read.
abbrev pub call_for : Host → ModuleConfig → Bytes → ℕ → Request → World
call_for host conf endpoint fd q =
    start q host.pool (new_watcher (make_context conf endpoint q.headers_in) (pos fd) host.now)

-- A request whose body can be read, where the descriptor and the event are to be had.
pub record CanStart (host : Host) (conf : ModuleConfig) (endpoint : Bytes) (fd : ℕ) (q : Request)
    : Type 0 where
  pub body : Bytes
  pub total : ℕ
  pub chosen : configured_endpoint conf ≡ some endpoint
  pub connected : q.connection ≡ true
  pub readable : extract_request_body host.pread (some conf) q ≡ got body total
  pub descriptor : host.eventfd ≡ pos fd
  pub event : host.event_fits ≡ true

pub callback_starts :
    (host : Host) (conf : ModuleConfig) (endpoint : Bytes) (fd : ℕ) (q : Request)
    → CanStart host conf endpoint fd q
    → body_read_done host (some conf) (no_call q)
      ≡ record { request = q; world = some (call_for host conf endpoint fd q) }
unfolding body_read_done callback_body callback_call create_eventfd start_call setup_result_timer
callback_starts host conf endpoint fd q s =
    ground (arith, s.chosen, s.connected, s.readable, s.descriptor, s.event)

-- A first pass of the second stage, which has no body yet.
pub record IsFirst (conf : ModuleConfig) (endpoint : Bytes) (r : Request) : Type 0 where
  pub bbr_off : conf.bbr_enable ≡ false
  pub epp_on : conf.epp_enable ≡ true
  pub chosen : configured_endpoint conf ≡ some endpoint
  pub unset : get_header_in r.headers_in (epp_header conf) ≡ none
  pub fine : leb 300 r.status ≡ false
  pub unread : r.request_body ≡ none

first_pass_reads :
    (ngx : Nginx) (json : Json) (host : Host) (conf : ModuleConfig) (r : Request) (endpoint : Bytes)
    → IsFirst conf endpoint r
    → inference_access_handler ngx json host (some conf) r
      ≡ after_epp conf (read_body_async host (some conf) r)
unfolding inference_access_handler epp_stage Processor.process_request with_endpoint by_body
first_pass_reads ngx json host conf r endpoint f =
    ground (arith, f.bbr_off, f.epp_on, f.chosen, f.unset, f.fine, f.unread)

module _ (ngx : Nginx) (json : Json) (host : Host) (conf : ModuleConfig) (r q : Request)
    (endpoint : Bytes) (fd : ℕ) where
  -- With BBR off and the body there at once: the first pass of the access phase reads the body, starts
  -- one call for the request with its headers, finalizes with NGX_DONE, and returns NGX_DONE, when
  -- EPP is on with an endpoint, its header is not found, the status is below 300, the body can be
  -- read, and the descriptor and the event are to be had.
  pub first_pass_starts_call :
      (rc : ℤ)
      → IsFirst conf endpoint r
      → CanStart host conf endpoint fd q
      → host.read_client_request_body (body_read_done host (some conf)) (no_call r)
        ≡ (body_read_done host (some conf) (no_call q), rc)
      → ge_nat rc 300 ≡ false
      → is_again rc ≡ false
      → inference_access_handler ngx json host (some conf) r ≡ (
        record {
          request = call (finalize done_code) q;
          world = some (call_for host conf endpoint fd q);
        },
        ngx_done,
      )
  unfolding read_body_async after_epp_read after_epp
  first_pass_starts_call rc f s read good now =
      first_pass_reads ngx json host conf r endpoint f
      ∙ ground (arith, read, callback_starts host conf endpoint fd q s, good, now)

  -- With BBR off and a body that is still to come: the first pass starts no call; it lets the phases be
  -- resumed, finalizes with NGX_DONE, and returns NGX_DONE. The callback starts the call later.
  pub first_pass_waits :
      (p : Request)
      → IsFirst conf endpoint r
      → CanStart host conf endpoint fd q
      → host.read_client_request_body (body_read_done host (some conf)) (no_call r)
        ≡ (no_call p, negsuc 1)
      → (inference_access_handler ngx json host (some conf) r ≡ (
        no_call (call (finalize done_code) (record p { write_event_handler = core_run_phases })),
        ngx_done,
      ))
        × (body_read_done host (some conf) (no_call q)
            ≡ record { request = q; world = some (call_for host conf endpoint fd q) })
  unfolding read_body_async after_epp_read after_epp
  first_pass_waits p f s read = (
    first_pass_reads ngx json host conf r endpoint f ∙ ground (arith, read),
    callback_starts host conf endpoint fd q s,
  )

-- ===== src/Access/Repeat.antt =====
-- A pass of the access phase (src/lib.rs) over a request whose body is there and which has no upstream
-- yet: nothing in the request says whether a call has been made for it before.
use ngx_inference.Prelude.{
  ℕ, ◌≡◌, Bool, true, false, ◌&&◌, not, none, some, pos, eq_nat, is_some, leb, arith,
}
use ngx_inference.Text.{Bytes}
use ngx_inference.Config.{ModuleConfig}
use ngx_inference.Nginx.{Request, RequestBody, Nginx, ngx_done}
use ngx_inference.Nginx.Headers.{get_header_in}
use ngx_inference.Model.{Json}
use ngx_inference.Body.{got}
use ngx_inference.Bbr
use ngx_inference.Bbr.{bbr_header}
use ngx_inference.Epp.Again.{begins}
use ngx_inference.Epp.Body.{extract_request_body}
use ngx_inference.Epp.Context.{configured_endpoint, epp_header, make_context, new_watcher}
use ngx_inference.Epp.Processor
use ngx_inference.Epp.Start.{Host, Job}
use ngx_inference.Epp.Timer.{World, start}
use ngx_inference.Access.{after_bbr, after_epp, epp_stage, inference_access_handler}

-- Whether the first stage has still to read the body.
abbrev pub needs_bbr : ModuleConfig → Request → Bool
needs_bbr conf r = conf.bbr_enable && not (is_some (get_header_in r.headers_in (bbr_header conf)))

-- A request for which a pass can make a call, with what the kernel and nginx have to give.
pub record CanCall (host : Host) (conf : ModuleConfig) (endpoint : Bytes) (fd : ℕ) (r : Request)
    : Type 0 where
  pub content : Bytes
  pub total : ℕ
  pub body : RequestBody
  pub bbr_done : needs_bbr conf r ≡ false
  pub epp_on : conf.epp_enable ≡ true
  pub chosen : configured_endpoint conf ≡ some endpoint
  pub unset : get_header_in r.headers_in (epp_header conf) ≡ none
  pub fine : leb 300 r.status ≡ false
  pub connected : r.connection ≡ true
  pub there : r.request_body ≡ some body
  pub complete : eq_nat body.rest 0 ≡ true
  pub descriptor : host.eventfd ≡ pos fd
  pub event : host.event_fits ≡ true
  pub readable : extract_request_body host.pread (some conf) r ≡ got content total

-- The call for a request as it stands.
abbrev pub new_call : Host → ModuleConfig → Bytes → ℕ → Request → World
new_call host conf endpoint fd r =
    start r host.pool (new_watcher (make_context conf endpoint r.headers_in) (pos fd) host.now)

module _ (ngx : Nginx) (json : Json) (host : Host) (conf : ModuleConfig) where
  -- With nothing left for BBR, a call of the second stage is that of the pass.
  passed_on :
      (r : Request) (job : Job)
      → needs_bbr conf r ≡ false
      → conf.epp_enable ≡ true
      → Processor.process_request host conf r ≡ (job, ngx_done)
      → inference_access_handler ngx json host (some conf) r ≡ (job, ngx_done)
  unfolding inference_access_handler Bbr.process_request after_bbr epp_stage after_epp
  passed_on r job done on e = ground (arith, done, on, e)

  pub pass_calls :
      (endpoint : Bytes) (fd : ℕ) (r : Request)
      → CanCall host conf endpoint fd r
      → inference_access_handler ngx json host (some conf) r
        ≡ (record { request = r; world = some (new_call host conf endpoint fd r) }, ngx_done)
  pass_calls endpoint fd r c = passed_on r _ c.bbr_done c.epp_on (
      begins host conf fd endpoint c.content c.total c.body r c.epp_on c.chosen c.unset c.fine
        c.connected c.there c.complete c.descriptor c.event c.readable)

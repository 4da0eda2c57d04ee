-- ===== src/Epp/Processor.antt =====
-- `EppProcessor::process_request` (src/epp/mod.rs): whether a call is made for the request.
use ngx_inference.Prelude.{
  ◌≡◌, Bool, true, false, ◌||◌, not, Option, none, some, eq_nat, is_some, leb, arith, if◌then◌else◌,
}
use ngx_inference.Text.{Bytes}
use ngx_inference.Config.{ModuleConfig}
use ngx_inference.Nginx.{Request, RequestBody, Status, ngx_declined}
use ngx_inference.Nginx.Headers.{get_header_in}
use ngx_inference.Epp.Context.{AsyncEppContext, epp_header, configured_endpoint, make_context}
use ngx_inference.Epp.Start.{Job, Host, no_call, process_with_existing_body, read_body_async}

-- The end of `process_request`: the body has been read, is being read, or is to be read.
unfoldable pub by_body : Host → ModuleConfig → AsyncEppContext → Request → Job × Status
by_body host conf ctx r = elim r.request_body [
  | none ↦ read_body_async host (some conf) r
  | some b ↦
      if eq_nat b.rest 0
      then process_with_existing_body host (some conf) ctx r
      else (no_call r, ngx_declined)
]

-- From the endpoint on.
unfoldable pub with_endpoint : Host → ModuleConfig → Request → Bytes → Job × Status
with_endpoint host conf r endpoint =
    if is_some (get_header_in r.headers_in (epp_header conf))
    then (no_call r, ngx_declined)
    else if leb 300 r.status
    then (no_call r, ngx_declined)
    else by_body host conf (make_context conf endpoint r.headers_in) r

unfoldable pub process_request : Host → ModuleConfig → Request → Job × Status
process_request host conf r =
    if conf.epp_enable
    then elim (configured_endpoint conf) [
      | none ↦ (no_call r, ngx_declined)
      | some endpoint ↦ with_endpoint host conf r endpoint
    ]
    else (no_call r, ngx_declined)

abbrev being_read : Option RequestBody → Bool
being_read none = false
being_read (some b) = not (eq_nat b.rest 0)

abbrev pub is_skipped : ModuleConfig → Request → Bool
is_skipped conf r =
    not conf.epp_enable
    || (not (is_some (configured_endpoint conf))
        || (is_some (get_header_in r.headers_in (epp_header conf))
            || (leb 300 r.status || being_read r.request_body)))

-- EPP leaves the request alone, and declines, when it is off, has no endpoint, finds its header
-- set or an error status, or when another handler is still reading the body.
pub process_request_skips :
    (host : Host) (conf : ModuleConfig) (r : Request)
    → is_skipped conf r ≡ true
    → process_request host conf r ≡ (no_call r, ngx_declined)
unfolding process_request with_endpoint by_body
process_request_skips host conf r h = ground arith

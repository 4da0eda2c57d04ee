-- ===== src/Access/Fallback.antt =====
-- Calls that fail (src/epp/callbacks.rs): what the request is after the firing that ends the call, and in
-- fail-open mode the next pass of the access phase and $inference_upstream (src/lib.rs).
use ngx_inference.Prelude.{
  ℕ, ◌≡◌, ◌≢◌, refl, sym, ◌∙◌, ap, true, false, [], ◌∷◌, ◌++◌, List, some, arith,
}
use mathlib.Core.Path.{subst}
use ngx_inference.Text.{Bytes}
use ngx_inference.Config.{ModuleConfig}
use ngx_inference.Nginx.{Request, Nginx, ngx_declined, ngx_done, respond, clear_post_handler}
use ngx_inference.Model.{Json}
use ngx_inference.Bbr
use ngx_inference.Bbr.{bbr_header}
use ngx_inference.Epp.Again.{room, failure_then_declines}
use ngx_inference.Epp.Context.{epp_header, make_context}
use ngx_inference.Epp.Failure.{
  upstream, process_epp_result, handle_epp_failure, set_default, set_upstream_header,
}
use ngx_inference.Epp.Start.{Host}
use ngx_inference.Epp.Timer.{World, fire}
use ngx_inference.Grpc.Channel.{Tonic}
use ngx_inference.Variable.{VariableValue}
use ngx_inference.Variable.Routing.{failure_routes_default, result-headers}
use ngx_inference.Access.{inference_access_handler}
use ngx_inference.Access.Repeat.{CanCall, needs_bbr, new_call, pass_calls}
use ngx_inference.Access.Routed.{IsRoutable, IsRouted, handler_declines}
use ngx_inference.Access.Whole.{found_stays}
use ngx_inference.Access.Failing.{Fails, Fails-fire}

-- With nothing left for BBR, it declines also behind a further header.
pub bbr_stays_done :
    (ngx : Nginx) (json : Json) (conf : ModuleConfig) (r q : Request) (more : List (Bytes × Bytes))
    → needs_bbr conf r ≡ false
    → q.headers_in ≡ r.headers_in ++ more
    → Bbr.process_request ngx json conf q ≡ (q, ngx_declined)
unfolding Bbr.process_request
bbr_stays_done ngx json conf r q more done e =
    grind (arith, done, e, found_stays r.headers_in more (bbr_header conf))

-- With nothing left for BBR, it declines also when an upstream has been set.
pub result_stays_done :
    (ngx : Nginx) (json : Json) (conf : ModuleConfig) (endpoint u : Bytes) (r : Request)
    → needs_bbr conf r ≡ false
    → IsRoutable conf r u
    → let q = process_epp_result room (make_context conf endpoint r.headers_in) (upstream u) r in
      Bbr.process_request ngx json conf q ≡ (q, ngx_declined)
unfolding make_context
result_stays_done ngx json conf endpoint u r done route =
    bbr_stays_done ngx json conf r _ ((epp_header conf, u) ∷ []) done (
      result-headers room (make_context conf endpoint r.headers_in) r u route.name_nul
        route.value_nul refl)

-- A failure with a default and room for it sets the header.
failure_headers :
    (conf : ModuleConfig) (endpoint d : Bytes) (hs : List (Bytes × Bytes)) (code : ℕ) (r : Request)
    → conf.epp_failure_mode_allow ≡ true
    → conf.default_upstream ≡ some d
    → IsRoutable conf r d
    → (handle_epp_failure room (make_context conf endpoint hs) code r).headers_in
      ≡ r.headers_in ++ ((epp_header conf, d) ∷ [])
unfolding handle_epp_failure set_default set_upstream_header make_context
failure_headers conf endpoint d hs code r open_mode default route =
    ground (arith, route.name_nul, route.value_nul)

module _ (tonic : Tonic) (host : Host) (conf : ModuleConfig) (endpoint body : Bytes) (fd : ℕ)
    (r : Request) (c : CanCall host conf endpoint fd r) (counted : r.count ≢ 0) where
  -- In fail-closed mode, for a request for which a pass can make a call, and which has a
  -- reference: the pass starts the call and returns NGX_DONE, and when the call fails, the
  -- firing clears the request's post handler, sends the response for the failure's code and
  -- finalizes with it, and changes nothing else. A call fails when the peer offers nothing
  -- under the header's name and ends its stream or fails; the task brings an error, or an
  -- upstream with a zero byte (502); the task ends with no result (502); or the timeout
  -- passes, whatever the task has done (504).
  pub Fails-respond :
      (ngx : Nginx) (json : Json) (t : World) (code : ℕ)
      → conf.epp_failure_mode_allow ≡ false
      → Fails tonic conf endpoint body r (new_call host conf endpoint fd r) t code
      → (inference_access_handler ngx json host (some conf) r
          ≡ (record { request = r; world = some (new_call host conf endpoint fd r) }, ngx_done))
        × ((fire t).request
            ≡ respond code (record r { request_body = clear_post_handler r.request_body }))
  unfolding handle_epp_failure make_context
  Fails-respond ngx json t code closed_mode f = (
    pass_calls ngx json host conf endpoint fd r c,
    Fails-fire tonic host conf endpoint body fd r c counted f ∙ ground (arith, closed_mode),
  )

  failure-IsRouted :
      (ngx : Nginx) (json : Json) (d : Bytes) (v : VariableValue) (code : ℕ)
      → conf.epp_failure_mode_allow ≡ true
      → conf.default_upstream ≡ some d
      → IsRoutable conf r d
      → IsRouted ngx json host conf d v
          (handle_epp_failure room (make_context conf endpoint r.headers_in) code r)
  failure-IsRouted ngx json d v code open_mode default route = (
    handler_declines ngx json host conf _
        (bbr_stays_done ngx json conf r _ ((epp_header conf, d) ∷ []) c.bbr_done
          (failure_headers conf endpoint d r.headers_in code r open_mode default route))
        (failure_then_declines host conf endpoint r.headers_in r d route.absent route.name_utf8
          route.value_utf8 route.name_nul route.value_nul code open_mode default),
    failure_routes_default conf endpoint r.headers_in room r v d route.absent route.name_utf8
        route.value_utf8 route.fits code open_mode default,
  )

  -- In fail-open mode with a default upstream, for a request for which a pass can make a call,
  -- and which has a reference: the pass starts the call and returns NGX_DONE, and when the
  -- call fails, the firing leaves a request for which the next pass declines, makes no call
  -- and changes nothing, and whose $inference_upstream is the default. A call fails when the
  -- peer offers nothing under the header's name and ends its stream or fails; the task brings
  -- an error, or an upstream with a zero byte; the task ends with no result; or the timeout
  -- passes, whatever the task has done. The request lacks the header, its name and the default
  -- are UTF-8 with no zero byte, the default is neither empty nor longer than 32 bits can say,
  -- and the pool has room.
  pub default-IsRouted :
      (ngx : Nginx) (json : Json) (d : Bytes) (v : VariableValue) (t : World) (code : ℕ)
      → conf.epp_failure_mode_allow ≡ true
      → conf.default_upstream ≡ some d
      → IsRoutable conf r d
      → host.pool ≡ room
      → Fails tonic conf endpoint body r (new_call host conf endpoint fd r) t code
      → (inference_access_handler ngx json host (some conf) r
          ≡ (record { request = r; world = some (new_call host conf endpoint fd r) }, ngx_done))
        × IsRouted ngx json host conf d v (fire t).request
  default-IsRouted ngx json d v t code open_mode default route roomy f = (
    pass_calls ngx json host conf endpoint fd r c,
    subst (IsRouted ngx json host conf d v)
        (sym (
          Fails-fire tonic host conf endpoint body fd r c counted f
          ∙ ap (λ pool. handle_epp_failure pool (make_context conf endpoint r.headers_in) code r)
              roomy))
        (failure-IsRouted ngx json d v code open_mode default route),
  )

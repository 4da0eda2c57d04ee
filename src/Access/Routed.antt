-- ===== src/Access/Routed.antt =====
-- What a call that has brought an upstream leaves for the next pass of the access phase (src/lib.rs) and
-- for $inference_upstream, whichever pass has started it.
use ngx_inference.Prelude.{
  ℕ, ◌+◌, ◌≤◌, ◌≡◌, ◌≢◌, refl, sym, ◌∙◌, ap, true, false, List, some, pos, arith,
}
use mathlib.Core.Path.{subst}
use ngx_inference.Text.{Bytes, to_ascii_lowercase}
use ngx_inference.Utf8.{is_utf8}
use ngx_inference.Config.{ModuleConfig}
use ngx_inference.Nginx.{Request, Nginx, ngx_declined, ngx_ok}
use ngx_inference.Nginx.Headers.{has_name}
use ngx_inference.Model.{Json}
use ngx_inference.Bbr
use ngx_inference.Bbr.{bbr_header}
use ngx_inference.Epp.Context.{ResultWatcher, epp_header, make_context, new_watcher}
use ngx_inference.Epp.Failure.{has_nul, process_epp_result, upstream}
use ngx_inference.Epp.Start.{Host, no_call}
use ngx_inference.Epp.Timer.{World, fire, start}
use ngx_inference.Epp.Poll.{IsWaiting}
use ngx_inference.Epp.Task.{process_epp_async}
use ngx_inference.Epp.Delivery.{PeerAnswers, settle, delivers}
use ngx_inference.Epp.Again.{room, result_then_declines}
use ngx_inference.Epp.Processor
use ngx_inference.Grpc.Channel.{Tonic, Inbound}
use ngx_inference.Grpc.Mutation.{first}
use ngx_inference.Grpc.Stream.{stream_offers}
use ngx_inference.Variable.{VariableValue, inference_upstream_var_get}
use ngx_inference.Variable.Routing.{usable, value_of, result_routes_upstream}
use ngx_inference.Access.{after_bbr, after_epp, epp_stage, inference_access_handler}

-- A header name and a value that nginx and the module can both take, for a request without the header.
pub record IsRoutable (conf : ModuleConfig) (q : Request) (u : Bytes) : Type 0 where
  pub absent : has_name q.headers_in (epp_header conf) ≡ false
  pub name_utf8 : is_utf8 (epp_header conf) ≡ true
  pub value_utf8 : is_utf8 u ≡ true
  pub name_nul : has_nul (epp_header conf) ≡ false
  pub value_nul : has_nul u ≡ false
  pub fits : usable (some u) ≡ some u

-- The call of a pass some milliseconds later, with the request as the pass leaves it.
abbrev pub after_pass : Request → ℕ → World → World
after_pass r ms w = record w { request = r; now = w.now + ms }

-- A request that has been served: the next pass declines and makes no call, and the variable is the
-- upstream.
abbrev pub IsRouted : Nginx → Json → Host → ModuleConfig → Bytes → VariableValue → Request → Type 0
IsRouted ngx json host conf u v r =
    (inference_access_handler ngx json host (some conf) r ≡ (no_call r, ngx_declined))
    × (inference_upstream_var_get true (some conf) r (some v) ≡ (some (value_of u), ngx_ok))

-- The handler declines where both stages do.
pub handler_declines :
    (ngx : Nginx) (json : Json) (host : Host) (conf : ModuleConfig) (r : Request)
    → Bbr.process_request ngx json conf r ≡ (r, ngx_declined)
    → Processor.process_request host conf r ≡ (no_call r, ngx_declined)
    → inference_access_handler ngx json host (some conf) r ≡ (no_call r, ngx_declined)
unfolding inference_access_handler after_bbr epp_stage after_epp
handler_declines ngx json host conf r bbr epp = ground (arith, bbr, epp)

module _ (ngx : Nginx) (json : Json) (host : Host) (conf : ModuleConfig) (endpoint : Bytes)
    (sent_headers : List (Bytes × Bytes)) (p : Request) (u : Bytes)
    (route : IsRoutable conf p u) where
  abbrev pub result : Request
  result = process_epp_result room (make_context conf endpoint sent_headers) (upstream u) p

  pub result-IsRouted :
      (v : VariableValue)
      → Bbr.process_request ngx json conf result ≡ (result, ngx_declined)
      → IsRouted ngx json host conf u v result
  result-IsRouted v bbr = (
    handler_declines ngx json host conf result bbr (
        result_then_declines host conf endpoint sent_headers p u route.absent route.name_utf8
          route.value_utf8 route.name_nul route.value_nul),
    result_routes_upstream conf endpoint sent_headers room p v u route.absent route.name_utf8
        route.value_utf8 route.fits route.name_nul route.value_nul refl,
  )

module _ (ngx : Nginx) (json : Json) (host : Host) (tonic : Tonic) (conf : ModuleConfig)
    (endpoint body : Bytes) (sent_headers : List (Bytes × Bytes)) (inbound : Inbound)
    (p q : Request) (u : Bytes) (fd : ℕ)
    (answers : PeerAnswers tonic (make_context conf endpoint sent_headers) inbound)
    (offers : first (stream_offers (to_ascii_lowercase (epp_header conf)) inbound.messages)
      ≡ some u)
    (route : IsRoutable conf p u) (roomy : host.pool ≡ room) (connected : p.connection ≡ true)
    (counted : p.count ≢ 0) where
  abbrev watching : ResultWatcher
  watching = new_watcher (make_context conf endpoint sent_headers) (pos fd) host.now

  abbrev waiting_call : ℕ → World
  waiting_call ms = after_pass p ms (start q host.pool watching)

  waiting_call-IsWaiting : (ms : ℕ) → IsWaiting watching (waiting_call ms)
  unfolding start
  waiting_call-IsWaiting ms = record {
    watching = refl;
    handler = refl;
    set = refl;
    connected = connected;
    counted = counted;
  }

  abbrev served : ℕ → Request
  served ms =
      (fire (
        settle (process_epp_async tonic (make_context conf endpoint sent_headers) body)
          (waiting_call ms))).request

  serves :
      (ms : ℕ)
      → ms ≤ conf.epp_timeout_ms
      → served ms ≡ process_epp_result room (make_context conf endpoint sent_headers) (upstream u) p
  unfolding start new_watcher make_context
  serves ms early =
      delivers tonic inbound body watching (waiting_call ms) answers (waiting_call-IsWaiting ms)
        (omega arith) u offers
      ∙ ap
          (λ pool. process_epp_result pool (make_context conf endpoint sent_headers) (upstream u) p)
          roomy

  -- Where BBR leaves the result alone: the request that the firing leaves is routed.
  pub served-IsRouted :
      (ms : ℕ) (v : VariableValue)
      → ms ≤ conf.epp_timeout_ms
      → (let r' =
            process_epp_result room (make_context conf endpoint sent_headers) (upstream u) p in
          Bbr.process_request ngx json conf r' ≡ (r', ngx_declined))
      → IsRouted ngx json host conf u v (served ms)
  served-IsRouted ms v early bbr =
      subst (IsRouted ngx json host conf u v) (sym (serves ms early))
        (result-IsRouted ngx json host conf endpoint sent_headers p u route v bbr)

-- ===== src/Access/EndToEnd.antt =====
-- The endpoint picker alone, from the first pass of the access phase to $inference_upstream (src/lib.rs,
-- src/epp/callbacks.rs, src/epp/async_processor.rs, src/grpc.rs).
use ngx_inference.Prelude.{ℕ, ◌≤◌, ◌≡◌, ◌≢◌, sym, ap, false, some, ℤ, ge_nat, arith}
use mathlib.Core.Path.{subst}
use ngx_inference.Text.{Bytes, to_ascii_lowercase}
use ngx_inference.Config.{ModuleConfig}
use ngx_inference.Nginx.{Request, Nginx, ngx_declined, call, finalize, done_code, is_again}
use ngx_inference.Model.{Json}
use ngx_inference.Epp.Context.{epp_header, make_context}
use ngx_inference.Epp.Start.{Host, no_call, body_read_done}
use ngx_inference.Epp.Timer.{World, fire}
use ngx_inference.Epp.Task.{process_epp_async}
use ngx_inference.Epp.Delivery.{PeerAnswers, settle}
use ngx_inference.Epp.Again.{room}
use ngx_inference.Grpc.Channel.{Tonic, Inbound}
use ngx_inference.Grpc.Mutation.{first}
use ngx_inference.Grpc.Stream.{stream_offers}
use ngx_inference.Variable.{VariableValue}
use ngx_inference.Access.{inference_access_handler}
use ngx_inference.Bbr
use ngx_inference.Access.Routed.{IsRoutable, IsRouted, after_pass, served-IsRouted}
use ngx_inference.Access.FirstPass.{IsFirst, CanStart, call_for, first_pass_starts_call}

-- With BBR off, the first stage leaves every request alone.
bbr_off_declines :
    (ngx : Nginx) (json : Json) (conf : ModuleConfig) (r : Request)
    → conf.bbr_enable ≡ false
    → Bbr.process_request ngx json conf r ≡ (r, ngx_declined)
unfolding Bbr.process_request
bbr_off_declines ngx json conf r off = ground (arith, off)

module _ (ngx : Nginx) (json : Json) (host : Host) (tonic : Tonic) (conf : ModuleConfig)
    (endpoint : Bytes) (inbound : Inbound) (q : Request) (u : Bytes) (fd : ℕ)
    (start_ok : CanStart host conf endpoint fd q)
    (answers : PeerAnswers tonic (make_context conf endpoint q.headers_in) inbound)
    (offers : first (stream_offers (to_ascii_lowercase (epp_header conf)) inbound.messages)
      ≡ some u)
    (route : IsRoutable conf q u) (roomy : host.pool ≡ room) (counted : q.count ≢ 0) where
  -- The request that is left when the call has been served, `ms` after a pass that leaves `p`.
  abbrev served : ℕ → Request → Request
  served ms p =
      (fire (
        settle (process_epp_async tonic (make_context conf endpoint q.headers_in) start_ok.body)
          (after_pass p ms (call_for host conf endpoint fd q)))).request

  -- With BBR off, for a first pass of the access phase whose body is there at once and can be
  -- read, and a peer that takes the connection and the call, sends its first message in time,
  -- and offers the value u first of all that it offers under the header's name: the pass
  -- starts a call; when the task has sent its result and the timer fires within the timeout,
  -- on the request that the pass left, the next pass declines, makes no call and leaves the
  -- request alone, and $inference_upstream is u. EPP is on with an endpoint, the status is
  -- below 300, and the descriptor and the event are to be had; the request lacks the header
  -- and has a reference, the header's name and u are UTF-8 with no zero byte, u is neither
  -- empty nor longer than 32 bits can say, and the pool has room.
  pub choice-IsRouted :
      (r : Request) (rc : ℤ) (ms : ℕ) (v : VariableValue)
      → IsFirst conf endpoint r
      → host.read_client_request_body (body_read_done host (some conf)) (no_call r)
        ≡ (body_read_done host (some conf) (no_call q), rc)
      → ge_nat rc 300 ≡ false
      → is_again rc ≡ false
      → ms ≤ conf.epp_timeout_ms
      → let pass = inference_access_handler ngx json host (some conf) r in
        (w : World) × (pass.0.world ≡ some w)
        × IsRouted ngx json host conf u v
            (fire (
              settle
                (process_epp_async tonic (make_context conf endpoint q.headers_in) start_ok.body)
                (after_pass pass.0.request ms w))).request
  choice-IsRouted r rc ms v f read good now early =
      let started =
        first_pass_starts_call ngx json host conf r q endpoint fd rc f start_ok read good now in
      (
        call_for host conf endpoint fd q,
        ap (λ p. p.0.world) started,
        subst (λ p. IsRouted ngx json host conf u v (served ms p))
            (sym (ap (λ p. p.0.request) started))
            (served-IsRouted ngx json host tonic conf endpoint start_ok.body q.headers_in inbound
              (call (finalize done_code) q) q u fd answers offers
              (record {
                absent = route.absent;
                name_utf8 = route.name_utf8;
                value_utf8 = route.value_utf8;
                name_nul = route.name_nul;
                value_nul = route.value_nul;
                fits = route.fits;
              })
              roomy start_ok.connected counted ms v early
              (bbr_off_declines ngx json conf _ f.bbr_off)),
      )

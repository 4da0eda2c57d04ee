-- ===== src/Access/Integration.antt =====
-- The module (src/lib.rs and what it calls) with the mock (bin/extproc_mock.rs) as its endpoint picker, as the
-- integration tests run them.
use ngx_inference.Prelude.{
  ℕ, suc, ◌≤◌, ◌≡◌, ◌≢◌, ◌∙◌, ap, false, inr, [], ◌∷◌, ◌++◌, Option, none, some, ◌==◌,
}
use ngx_inference.Text.{Bytes, bytes, is_empty, to_ascii_lowercase}
use ngx_inference.Config.{ModuleConfig}
use ngx_inference.Nginx.{Request, Nginx, ngx_done}
use ngx_inference.Model.{Json}
use ngx_inference.Access.Fallback.{result_stays_done}
use ngx_inference.Epp.Again.{room}
use ngx_inference.Epp.Context.{AsyncEppContext, epp_header, make_context}
use ngx_inference.Epp.Delivery.{PeerAnswers, settle}
use ngx_inference.Epp.Start.{Host}
use ngx_inference.Epp.Task.{process_epp_async}
use ngx_inference.Epp.Timer.{fire}
use ngx_inference.Grpc.Channel.{
  ok, closed, Tls, Tonic, Inbound, normalize_endpoint, open_channel, headers_message,
}
use ngx_inference.Grpc.Mutation.{first}
use ngx_inference.Grpc.Stream.{stream_offers}
use ngx_inference.Mock.{ExtProcMock, request_headers, headers_resp, process, Env, unwrap_or, main}
use ngx_inference.Mock.Client.{
  stream_of, configured_upstream, main_role, process_headers, in_time_first,
}
use ngx_inference.Mock.Received.{upstream_key, headers_resp-offers}
use ngx_inference.Variable.{VariableValue}
use ngx_inference.Access.{inference_access_handler}
use ngx_inference.Access.Repeat.{CanCall, new_call, pass_calls}
use ngx_inference.Access.Routed.{IsRoutable, IsRouted, after_pass, served-IsRouted}

-- A mock that `main` has started as an endpoint picker, and whose address the channel of a call reaches:
-- what it sends for the call's one message arrives, the first of it after a delay within the timeout.
pub record IsMockPeer (Status : Type 0) (json : Json) (from_slice : Bytes → Option json.Value)
    (env : Env) (tonic : Tonic) (ctx : AsyncEppContext) : Type 0 where
  pub mock : ExtProcMock
  pub port : ℕ
  pub taken : ℕ
  pub delay : ℕ
  pub uri : Bytes
  pub tls : Tls
  pub started : main env ≡ some mock
  pub at : env.parse_port (unwrap_or env.arg (bytes "0.0.0.0:9001")) ≡ some port
  pub other_port : (port == 9000) ≡ false
  pub unset : env.var (bytes "MOCK_ROLE") ≡ none
  pub chosen : is_empty (configured_upstream env) ≡ false
  pub opens :
      open_channel tonic (normalize_endpoint ctx.endpoint ctx.use_tls) ctx.use_tls ctx.ca_file
      ≡ ok (uri, tls)
  pub streams :
      tonic.process uri tls (headers_message ctx.headers)
      ≡ some (
          stream_of delay (
            process {Status = Status} json from_slice mock
              (suc taken)
              (request_headers (headers_message ctx.headers) ∷ [])))
  pub in_time : delay ≤ ctx.timeout_ms

abbrev only_reply : ExtProcMock → ℕ → Inbound
only_reply mock delay = record {
  messages = headers_resp mock ∷ [];
  ending = closed;
  first_delay = delay;
}

module _ (Status : Type 0) (json : Json) (from_slice : Bytes → Option json.Value) (env : Env)
    (tonic : Tonic) (ctx : AsyncEppContext)
    (m : IsMockPeer Status json from_slice env tonic ctx) where
  mock_answers : PeerAnswers tonic ctx (only_reply m.mock m.delay)
  mock_answers = record {
    uri = m.uri;
    tls = m.tls;
    opens = m.opens;
    streams =
        m.streams
        ∙ ap (λ items. some (stream_of m.delay items))
            (process_headers {Status = Status} json from_slice m.mock m.taken
              (headers_message ctx.headers)
              (main_role env m.port m.mock m.started m.at m.other_port m.unset).0);
    in_time = in_time_first ctx.timeout_ms m.delay (headers_resp m.mock) (inr m.in_time);
  }

  mock_offers :
      first (stream_offers upstream_key (only_reply m.mock m.delay).messages)
      ≡ some (configured_upstream env)
  mock_offers =
      let upstream = (main_role env m.port m.mock m.started m.at m.other_port m.unset).1 in
      ap (λ us. first (us ++ [])) (headers_resp-offers m.mock (ap is_empty upstream ∙ m.chosen))
      ∙ ap some upstream

-- With the mock as the endpoint picker, started by `main` at an address whose port is not 9000
-- and with no role set, and what it sends for the call's one message arriving in time over a
-- channel that opens: for a request for which a pass can make a call, and which has a reference,
-- the pass starts the call and returns NGX_DONE, and when the task has sent its result and the
-- timer fires within the timeout, the next pass declines, makes no call and changes nothing, and
-- $inference_upstream is the upstream that the mock's environment names, or the mock's default.
-- The header is the one that the mock sets, in any case; the request lacks it, its name and the
-- upstream are UTF-8 with no zero byte, the upstream is neither empty nor longer than 32 bits
-- can say, and the pool has room.
pub mock-IsRouted :
    (Status : Type 0) (ngx : Nginx) (json : Json) (from_slice : Bytes → Option json.Value)
    (env : Env) (host : Host) (tonic : Tonic) (conf : ModuleConfig) (endpoint body : Bytes)
    (fd ms : ℕ) (r : Request) (v : VariableValue)
    → CanCall host conf endpoint fd r
    → r.count ≢ 0
    → IsRoutable conf r (configured_upstream env)
    → host.pool ≡ room
    → to_ascii_lowercase (epp_header conf) ≡ upstream_key
    → IsMockPeer Status json from_slice env tonic (make_context conf endpoint r.headers_in)
    → ms ≤ conf.epp_timeout_ms
    → (inference_access_handler ngx json host (some conf) r
        ≡ (record { request = r; world = some (new_call host conf endpoint fd r) }, ngx_done))
      × IsRouted ngx json host conf
          (configured_upstream env)
          v
          (fire (
            settle
              (process_epp_async tonic (make_context conf endpoint r.headers_in) body)
              (after_pass r ms (new_call host conf endpoint fd r)))).request
mock-IsRouted Status ngx json from_slice env host tonic conf endpoint body fd ms r v c counted route
      roomy name m early =
    let ctx = make_context conf endpoint r.headers_in in
    (
      pass_calls ngx json host conf endpoint fd r c,
      served-IsRouted ngx json host tonic conf endpoint body r.headers_in
          (only_reply m.mock m.delay) r r (configured_upstream env) fd
          (mock_answers Status json from_slice env tonic ctx m)
          (ap (λ k. first (stream_offers k (only_reply m.mock m.delay).messages)) name
            ∙ mock_offers Status json from_slice env tonic ctx m)
          route roomy c.connected counted ms v early
          (result_stays_done ngx json conf endpoint (configured_upstream env) r c.bbr_done route),
    )

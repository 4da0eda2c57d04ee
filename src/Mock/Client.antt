-- ===== src/Mock/Client.antt =====
-- The gRPC client of src/grpc.rs against the mock (bin/extproc_mock.rs) as its `main` starts it.
use ngx_inference.Prelude.{
  ℕ, suc, ◌≡◌, ◌≤◌, ◌∙◌, refl, ap, false, ◌⊎◌, inl, inr, List, [], ◌∷◌, Option, none, some, arith,
  ◌==◌,
}
use ngx_inference.Text.{Bytes, bytes, bytes_eq, is_empty, to_ascii_lowercase}
use ngx_inference.Model.{Json}
use ngx_inference.Grpc.Proto.{ProcessingRequest, ProcessingResponse}
use ngx_inference.Grpc.Mutation.{parse_response_for_header_async}
use ngx_inference.Grpc.Channel
use ngx_inference.Grpc.Channel.{
  ok, Tls, Tonic, normalize_endpoint, open_channel, headers_message, closed,
}
use ngx_inference.Grpc.Stream.{finished, first_times_out, read_stream, read_stream-first}
use ngx_inference.Grpc.Client.{EppCall, epp_headers_blocking_internal, exchange, run_stream}
use ngx_inference.Mock.{
  ExtProcMock, request_headers, Item, reply, headers_resp, send, on_headers, on_inbound, after_loop,
  run, process, Env, unwrap_or, main,
}
use ngx_inference.Mock.Received.{
  received_messages, received_ending, upstream_key, headers_resp-offers,
}

-- What comes to the client, the first of it after the delay.
abbrev pub stream_of : {Status : Type 0} → ℕ → List (Item Status) → Channel.Inbound
stream_of delay items = record {
  messages = received_messages items;
  ending = received_ending items;
  first_delay = delay;
}

abbrev pub configured_upstream : Env → Bytes
configured_upstream env =
    unwrap_or (env.var (bytes "EPP_UPSTREAM")) (bytes "host.docker.internal:18080")

-- Unless its port is that of the other role, or the role is set, the mock is an endpoint picker.
pub main_role :
    (env : Env) (port : ℕ) (mock : ExtProcMock)
    → main env ≡ some mock
    → env.parse_port (unwrap_or env.arg (bytes "0.0.0.0:9001")) ≡ some port
    → (port == 9000) ≡ false
    → env.var (bytes "MOCK_ROLE") ≡ none
    → (mock.role ≡ bytes "EPP") × (mock.epp_upstream ≡ configured_upstream env)
unfolding main
main_role env port mock started at other_port unset =
    (ground (arith, started, at, other_port, unset), ground (arith, started, at, other_port, unset))

-- The headers are answered at once, and nothing follows at the end.
pub process_headers :
    {Status : Type 0} (json : Json) (from_slice : Bytes → Option json.Value) (mock : ExtProcMock)
    (taken : ℕ) (message : ProcessingRequest)
    → mock.role ≡ bytes "EPP"
    → process {Status = Status} json from_slice mock (suc taken) (request_headers message ∷ [])
      ≡ reply (headers_resp mock) ∷ []
unfolding process run on_inbound on_headers after_loop send bytes_eq
process_headers json from_slice mock taken message role = rw role refl

exchange_reads :
    (tonic : Tonic) (c : EppCall) (uri : Bytes) (tls : Tls) (inbound : Channel.Inbound)
    → open_channel tonic (normalize_endpoint c.endpoint c.use_tls) c.use_tls c.ca_file
      ≡ ok (uri, tls)
    → tonic.process uri tls (headers_message c.headers) ≡ some inbound
    → epp_headers_blocking_internal tonic c
      ≡ read_stream parse_response_for_header_async
          (to_ascii_lowercase c.header_name)
          c.timeout_ms
          inbound
unfolding epp_headers_blocking_internal exchange run_stream
exchange_reads tonic c uri tls inbound opened processed = ground (arith, opened, processed)

pub in_time_first :
    (timeout_ms delay : ℕ) (r : ProcessingResponse)
    → (timeout_ms ≡ 0) ⊎ (delay ≤ timeout_ms)
    → first_times_out timeout_ms
        (record { messages = r ∷ []; ending = closed; first_delay = delay })
      ≡ false
unfolding first_times_out
in_time_first timeout_ms delay r (inl e) = ground (arith, e)
in_time_first timeout_ms delay r (inr h) = ground (arith, h)

reads_upstream :
    (mock : ExtProcMock) (timeout_ms delay : ℕ)
    → is_empty mock.epp_upstream ≡ false
    → (timeout_ms ≡ 0) ⊎ (delay ≤ timeout_ms)
    → read_stream parse_response_for_header_async upstream_key timeout_ms
        (record { messages = headers_resp mock ∷ []; ending = closed; first_delay = delay })
      ≡ finished (ok (some mock.epp_upstream))
reads_upstream mock timeout_ms delay chosen in_time =
    rw
      (
        read_stream-first upstream_key timeout_ms
            (record { messages = headers_resp mock ∷ []; ending = closed; first_delay = delay }),
        in_time_first timeout_ms delay (headers_resp mock) in_time,
        headers_resp-offers mock chosen,
      )
      refl

-- Round trip: the mock, started by `main` at an address whose port is not 9000 and with no role set,
-- runs the task for a call's one message, for a client that takes at least one reply. When the channel opens and
-- the peer's stream is what that task sends, in time, the client selects the upstream that the mock's
-- environment names, or its default, whatever the case in which the header's name is
-- configured, provided that the upstream is not empty.
pub client_gets_upstream :
    (Status : Type 0) (json : Json) (from_slice : Bytes → Option json.Value) (env : Env)
    (mock : ExtProcMock) (tonic : Tonic) (c : EppCall) (uri : Bytes) (tls : Tls)
    (port taken delay : ℕ)
    → main env ≡ some mock
    → env.parse_port (unwrap_or env.arg (bytes "0.0.0.0:9001")) ≡ some port
    → (port == 9000) ≡ false
    → env.var (bytes "MOCK_ROLE") ≡ none
    → is_empty (configured_upstream env) ≡ false
    → open_channel tonic (normalize_endpoint c.endpoint c.use_tls) c.use_tls c.ca_file
      ≡ ok (uri, tls)
    → tonic.process uri tls (headers_message c.headers)
      ≡ some (
          stream_of delay (
            process {Status = Status} json from_slice mock
              (suc taken)
              (request_headers (headers_message c.headers) ∷ [])))
    → (c.timeout_ms ≡ 0) ⊎ (delay ≤ c.timeout_ms)
    → to_ascii_lowercase c.header_name ≡ upstream_key
    → epp_headers_blocking_internal tonic c ≡ finished (ok (some (configured_upstream env)))
client_gets_upstream Status json from_slice env mock tonic c uri tls port taken delay started at
      other_port unset chosen opened processed in_time name =
    let (role, upstream) = main_role env port mock started at other_port unset in
    let sent =
      process_headers {Status = Status} json from_slice mock taken (headers_message c.headers)
        role in
    let processed' = processed ∙ ap (λ items. some (stream_of delay items)) sent in
    exchange_reads tonic c uri tls _ opened processed'
    ∙ ap
        (λ k.
          read_stream parse_response_for_header_async k c.timeout_ms
            (stream_of {Status = Status} delay (reply (headers_resp mock) ∷ [])))
        name
    ∙ reads_upstream mock c.timeout_ms delay (rw upstream chosen) in_time
    ∙ ap (λ u. finished (ok (some u))) upstream

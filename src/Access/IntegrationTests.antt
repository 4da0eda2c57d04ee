-- ===== src/Access/IntegrationTests.antt =====
-- A concrete request with the mock as its endpoint picker.
use ngx_inference.Prelude.{ℕ, ◌≡◌, refl, none, some, false, [], ◌∷◌, arith, Option, if◌then◌else◌}
use ngx_inference.Text.{
  Bytes, bytes, bytes_eq, starts_with, to_ascii_lowercase, lower, eq_ignore_ascii_case,
}
use ngx_inference.Utf8.{is_utf8}
use ngx_inference.Config.{ModuleConfig}
use ngx_inference.Nginx.{ngx_done}
use ngx_inference.Nginx.Headers.{get_header_in}
use ngx_inference.Epp.Context.{configured_endpoint, epp_header, make_context}
use ngx_inference.Epp.Delivery.{settle}
use ngx_inference.Epp.Task.{process_epp_async}
use ngx_inference.Epp.Timer.{fire}
use ngx_inference.Grpc.Channel.{Tonic, open_channel, normalize_endpoint, system_roots}
use ngx_inference.Mock.{ExtProcMock, request_headers, process, Env, main}
use ngx_inference.Mock.Client.{stream_of}
use ngx_inference.Access.{inference_access_handler}
use ngx_inference.Access.Repeat.{CanCall, new_call}
use ngx_inference.Access.Routed.{IsRoutable, IsRouted, after_pass}
use ngx_inference.Access.Integration.{IsMockPeer, mock-IsRouted}
use ngx_inference.Fixtures.{roomy_host, roomy_nginx, model_json, chat_request, open_config}
use ngx_inference.Fixtures.Peer.{peer}
use ngx_inference.Fixtures.Calls.{chat-CanCall, no_value}

abbrev solo_config : ModuleConfig
solo_config = record open_config { bbr_enable = false }

abbrev read_nothing : Bytes → Option model_json.Value
read_nothing bs = none

abbrev env : Env
env = record {
  arg = some (bytes "0.0.0.0:9001");
  var = λ name. if bytes_eq name (bytes "EPP_UPSTREAM") then some (bytes "10.0.0.2:80") else none;
  parse_port = λ address. some 9001;
}

abbrev picker : ExtProcMock
picker = record {
  epp_upstream = bytes "10.0.0.2:80";
  bbr_model = bytes "bbr-chosen-model";
  role = bytes "EPP";
}

abbrev mock_peer : Tonic
mock_peer = record peer {
  process = λ uri tls message. some (
      stream_of 5
        (process {Status = ℕ} model_json read_nothing picker 1 (request_headers message ∷ [])));
}

picker-IsMockPeer :
    IsMockPeer ℕ model_json read_nothing env mock_peer
      (make_context solo_config (bytes "epp:9002") chat_request.headers_in)
unfolding open_channel normalize_endpoint starts_with make_context main bytes_eq
picker-IsMockPeer = record {
  mock = picker;
  port = 9001;
  taken = 0;
  delay = 5;
  uri = bytes "https://epp:9002";
  tls = system_roots (bytes "epp");
  started = refl;
  at = refl;
  other_port = refl;
  unset = refl;
  chosen = refl;
  opens = refl;
  streams = refl;
  in_time = omega arith;
}

solo-CanCall : CanCall roomy_host solo_config (bytes "epp:9002") 9 chat_request
unfolding epp_header is_utf8 eq_ignore_ascii_case lower configured_endpoint get_header_in
solo-CanCall = chat-CanCall solo_config 9 1000 refl refl refl refl (omega arith)

upstream-IsRoutable : IsRoutable solo_config chat_request (bytes "10.0.0.2:80")
unfolding epp_header is_utf8 eq_ignore_ascii_case lower
upstream-IsRoutable = record {
  absent = refl;
  name_utf8 = refl;
  value_utf8 = refl;
  name_nul = refl;
  value_nul = refl;
  fits = refl;
}

mock-IsRouted_example :
    (inference_access_handler roomy_nginx model_json roomy_host (some solo_config) chat_request ≡ (
      record {
        request = chat_request;
        world = some (new_call roomy_host solo_config (bytes "epp:9002") 9 chat_request);
      },
      ngx_done,
    ))
    × IsRouted roomy_nginx model_json roomy_host solo_config
        (bytes "10.0.0.2:80")
        no_value
        (fire (
          settle
            (process_epp_async mock_peer
              (make_context solo_config (bytes "epp:9002") chat_request.headers_in)
              [])
            (after_pass chat_request 7
              (new_call roomy_host solo_config (bytes "epp:9002") 9 chat_request)))).request
unfolding epp_header to_ascii_lowercase lower bytes_eq
mock-IsRouted_example =
    mock-IsRouted ℕ roomy_nginx model_json read_nothing env roomy_host mock_peer solo_config
      (bytes "epp:9002") [] 9 7 chat_request no_value solo-CanCall (ground arith)
      upstream-IsRoutable refl refl picker-IsMockPeer (omega arith)

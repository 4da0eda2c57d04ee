-- ===== src/Access/FallbackTests.antt =====
-- Failing calls for a concrete request.
use ngx_inference.Prelude.{◌≡◌, refl, false, [], some, arith}
use ngx_inference.Text.{bytes, starts_with, to_ascii_lowercase, lower, eq_ignore_ascii_case}
use ngx_inference.Utf8.{is_utf8}
use ngx_inference.Config.{ModuleConfig}
use ngx_inference.Nginx.{ngx_done, respond, clear_post_handler}
use ngx_inference.Nginx.Headers.{get_header_in}
use ngx_inference.Epp.Context.{configured_endpoint, epp_header, make_context}
use ngx_inference.Epp.Delivery.{PeerAnswers, settle}
use ngx_inference.Epp.Failure.{upstream}
use ngx_inference.Epp.Task.{process_epp_async}
use ngx_inference.Epp.Timer.{World, ready, sent, fire}
use ngx_inference.Grpc.Channel.{open_channel, normalize_endpoint, system_roots}
use ngx_inference.Grpc.Stream.{first_times_out}
use ngx_inference.Access.{inference_access_handler}
use ngx_inference.Access.Repeat.{CanCall, new_call}
use ngx_inference.Access.Routed.{IsRoutable, IsRouted, after_pass}
use ngx_inference.Access.Failing.{brings_nothing, takes_too_long}
use ngx_inference.Access.Fallback.{Fails-respond, default-IsRouted}
use ngx_inference.Fixtures.{roomy_host, model_json, roomy_nginx, chat_request, open_config}
use ngx_inference.Fixtures.Calls.{chat-CanCall, no_value}
use ngx_inference.Fixtures.Peer.{useless, useless_peer}

abbrev default_config : ModuleConfig
default_config = record open_config { bbr_enable = false }

abbrev closed_config : ModuleConfig
closed_config = record default_config { epp_failure_mode_allow = false }

default-CanCall : CanCall roomy_host default_config (bytes "epp:9002") 9 chat_request
unfolding epp_header is_utf8 eq_ignore_ascii_case lower configured_endpoint get_header_in
default-CanCall = chat-CanCall default_config 9 1000 refl refl refl refl (omega arith)

closed-CanCall : CanCall roomy_host closed_config (bytes "epp:9002") 9 chat_request
unfolding epp_header is_utf8 eq_ignore_ascii_case lower configured_endpoint get_header_in
closed-CanCall = chat-CanCall closed_config 9 1000 refl refl refl refl (omega arith)

useless_answers :
    PeerAnswers useless_peer
      (make_context default_config (bytes "epp:9002") chat_request.headers_in)
      useless
unfolding open_channel normalize_endpoint starts_with first_times_out make_context
useless_answers = record {
  uri = bytes "https://epp:9002";
  tls = system_roots (bytes "epp");
  opens = refl;
  streams = refl;
  in_time = refl;
}

default-IsRoutable : IsRoutable default_config chat_request (bytes "10.0.0.1:80")
unfolding epp_header is_utf8 eq_ignore_ascii_case lower
default-IsRoutable = record {
  absent = refl;
  name_utf8 = refl;
  value_utf8 = refl;
  name_nul = refl;
  value_nul = refl;
  fits = refl;
}

-- Seven milliseconds after the pass, the useless peer has ended its stream.
abbrev first_call : World
first_call = new_call roomy_host default_config (bytes "epp:9002") 9 chat_request

abbrev useless_end : World
useless_end =
    settle
      (process_epp_async useless_peer
        (make_context default_config (bytes "epp:9002") chat_request.headers_in) [])
      (after_pass chat_request 7 first_call)

default-IsRouted_example :
    (inference_access_handler roomy_nginx model_json roomy_host (some default_config) chat_request
      ≡ (record { request = chat_request; world = some first_call }, ngx_done))
    × IsRouted roomy_nginx model_json roomy_host default_config
        (bytes "10.0.0.1:80")
        no_value
        (fire useless_end).request
unfolding epp_header to_ascii_lowercase lower eq_ignore_ascii_case
default-IsRouted_example =
    default-IsRouted useless_peer roomy_host default_config (bytes "epp:9002") [] 9 chat_request
      default-CanCall (ground arith) roomy_nginx model_json (bytes "10.0.0.1:80") no_value
      useless_end 502 refl refl default-IsRoutable refl
      (brings_nothing useless 7 useless_answers refl (ground arith) (omega arith))

-- An upstream that comes 201 milliseconds after the pass is too late.
abbrev closed_call : World
closed_call = new_call roomy_host closed_config (bytes "epp:9002") 9 chat_request

abbrev late_call : World
late_call = record (after_pass chat_request 201 closed_call) {
  channel = ready (upstream (bytes "10.0.0.2:80"));
  task = sent;
}

Fails-respond_example :
    (inference_access_handler roomy_nginx model_json roomy_host (some closed_config) chat_request
      ≡ (record { request = chat_request; world = some closed_call }, ngx_done))
    × ((fire late_call).request
        ≡ respond 504
            (record chat_request { request_body = clear_post_handler chat_request.request_body }))
Fails-respond_example =
    Fails-respond useless_peer roomy_host closed_config (bytes "epp:9002") [] 9 chat_request
      closed-CanCall (ground arith) roomy_nginx model_json late_call 504 refl
      (takes_too_long 201 (ready (upstream (bytes "10.0.0.2:80"))) sent (omega arith))

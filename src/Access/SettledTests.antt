-- ===== src/Access/SettledTests.antt =====
-- A concrete request whose endpoint picker may do anything, and here selects an upstream.
use ngx_inference.Prelude.{◌≡◌, refl, sym, ◌∙◌, inr, false, [], some, arith}
use mathlib.Core.Path.{subst}
use ngx_inference.Text.{bytes, starts_with, to_ascii_lowercase, lower, eq_ignore_ascii_case}
use ngx_inference.Utf8.{is_utf8}
use ngx_inference.Config.{ModuleConfig}
use ngx_inference.Nginx.{ngx_done}
use ngx_inference.Nginx.Headers.{get_header_in}
use ngx_inference.Epp.Context.{configured_endpoint, epp_header, make_context}
use ngx_inference.Epp.Delivery.{PeerAnswers, task_reads}
use ngx_inference.Epp.Failure.{TaskResult, upstream}
use ngx_inference.Epp.Task.{process_epp_async, task_result}
use ngx_inference.Epp.Timer.{World, fire}
use ngx_inference.Grpc.Channel.{open_channel, normalize_endpoint, system_roots}
use ngx_inference.Grpc.Stream.{Progress, finished, first_times_out}
use ngx_inference.Access.{inference_access_handler}
use ngx_inference.Access.Repeat.{CanCall, new_call}
use ngx_inference.Access.Routed.{IsRoutable}
use ngx_inference.Access.Settled.{Settled, end_of_call, call_settles}
use ngx_inference.Fixtures.{roomy_host, roomy_nginx, model_json, chat_request, open_config}
use ngx_inference.Fixtures.Peer.{inbound, peer}
use ngx_inference.Fixtures.Calls.{chat-CanCall, no_value, some_injective, found_injective}

abbrev default_config : ModuleConfig
default_config = record open_config { bbr_enable = false }

default-CanCall : CanCall roomy_host default_config (bytes "epp:9002") 9 chat_request
unfolding epp_header is_utf8 eq_ignore_ascii_case lower configured_endpoint get_header_in
default-CanCall = chat-CanCall default_config 9 1000 refl refl refl refl (omega arith)

abbrev the_task : Progress TaskResult
the_task =
    process_epp_async peer (make_context default_config (bytes "epp:9002") chat_request.headers_in)
      []

peer_answers :
    PeerAnswers peer
      (make_context default_config (bytes "epp:9002") chat_request.headers_in)
      inbound
unfolding open_channel normalize_endpoint starts_with first_times_out make_context
peer_answers = record {
  uri = bytes "https://epp:9002";
  tls = system_roots (bytes "epp");
  opens = refl;
  streams = refl;
  in_time = refl;
}

found : the_task ≡ finished (upstream (bytes "10.0.0.2:80"))
unfolding to_ascii_lowercase lower eq_ignore_ascii_case task_result make_context epp_header
found =
    task_reads peer (make_context default_config (bytes "epp:9002") chat_request.headers_in) inbound
      [] peer_answers

upstream-IsRoutable : IsRoutable default_config chat_request (bytes "10.0.0.2:80")
unfolding epp_header is_utf8 eq_ignore_ascii_case lower
upstream-IsRoutable = record {
  absent = refl;
  name_utf8 = refl;
  value_utf8 = refl;
  name_nul = refl;
  value_nul = refl;
  fits = refl;
}

default-IsRoutable : IsRoutable default_config chat_request (bytes "10.0.0.1:80")
unfolding epp_header is_utf8 eq_ignore_ascii_case lower
default-IsRoutable = record {
  absent = refl;
  name_utf8 = refl;
  value_utf8 = refl;
  name_nul = refl;
  value_nul = refl;
  fits = refl;
}

abbrev the_call : World
the_call = new_call roomy_host default_config (bytes "epp:9002") 9 chat_request

call_settles_example :
    (inference_access_handler roomy_nginx model_json roomy_host (some default_config) chat_request
      ≡ (record { request = chat_request; world = some the_call }, ngx_done))
    × Settled roomy_nginx model_json roomy_host default_config no_value the_task chat_request
        (fire (end_of_call the_task 7 201 chat_request the_call)).request
call_settles_example =
    call_settles roomy_nginx model_json roomy_host peer default_config (bytes "epp:9002") [] 9
      chat_request no_value default-CanCall (ground arith) refl
      (λ d e. subst (IsRoutable default_config chat_request) (some_injective e) default-IsRoutable)
      7 201
      (λ u e. inr (
        subst (IsRoutable default_config chat_request) (found_injective (sym found ∙ e))
          upstream-IsRoutable))
      (omega arith) (omega arith)

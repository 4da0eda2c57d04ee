-- ===== src/Access/RoutedTests.antt =====
-- Calls from the pass that starts them to $inference_upstream, on concrete requests.
use ngx_inference.Nginx.Headers.{get_header_in}
use ngx_inference.Prelude.{true, false, none}
use ngx_inference.Prelude.{pos, ◌≡◌, refl, some, arith}
use ngx_inference.Text.{bytes, eq_ignore_ascii_case, lower}
use ngx_inference.Utf8.{is_utf8}
use ngx_inference.Nginx.{Request}
use ngx_inference.Bbr.{bbr_header}
use ngx_inference.Access.{inference_access_handler}
use ngx_inference.Epp.Context.{epp_header, configured_endpoint, make_context}
use ngx_inference.Access.FirstPass.{IsFirst, CanStart}
use ngx_inference.Config.{ModuleConfig}
use ngx_inference.Epp.Start.{Host}
use ngx_inference.Epp.Context.{AsyncEppContext}
use ngx_inference.Epp.Delivery.{PeerAnswers, settle}
use ngx_inference.Epp.Task.{process_epp_async}
use ngx_inference.Epp.Timer.{fire}
use ngx_inference.Grpc.Channel.{open_channel, normalize_endpoint, system_roots}
use ngx_inference.Grpc.Stream.{first_times_out}
use ngx_inference.Text.{starts_with, to_ascii_lowercase}
use ngx_inference.Fixtures.Calls.{no_value}
use ngx_inference.Fixtures.Peer.{inbound, peer}
use ngx_inference.Access.Routed.{IsRoutable, IsRouted, after_pass}
use ngx_inference.Access.EndToEnd.{choice-IsRouted}
use ngx_inference.Access.Whole.{model-IsRouted}
use ngx_inference.Bbr.Handler.{model_or_default}
use ngx_inference.Body.Parts.{all_contents}
use ngx_inference.Epp.Limit.{extract_request_body_lem}
use ngx_inference.Epp.Timer.{World}
use ngx_inference.Fixtures.{
  short_pread, parts-AllSound, short_pread-ReadsFile, roomy_host, chat_has_body, disk, model_json,
  model_json-TextIsUtf8, roomy_nginx, roomy_nginx-AddsHeader, roomy_nginx-room, parts, chat_request,
  open_config,
}
use ngx_inference.Access.Tests.{second_request}

-- The endpoint picker alone, and an nginx that has the body at once.
abbrev solo_config : ModuleConfig
solo_config = record open_config { bbr_enable = false }

abbrev unread_request : Request
unread_request = record chat_request { request_body = none }

abbrev ready_host : Host
ready_host = record roomy_host {
  read_client_request_body = λ handler job. (
    handler
        (record job { request = record job.request { request_body = chat_request.request_body } }),
    pos 0,
  );
}

unread-IsFirst : IsFirst solo_config (bytes "epp:9002") unread_request
unfolding epp_header is_utf8 eq_ignore_ascii_case lower configured_endpoint get_header_in
unread-IsFirst = record {
  bbr_off = refl;
  epp_on = refl;
  chosen = refl;
  unset = refl;
  fine = refl;
  unread = refl;
}

chat-CanStart : CanStart ready_host solo_config (bytes "epp:9002") 9 chat_request
unfolding configured_endpoint
chat-CanStart = record {
  body = bytes "{\"model\":\"llama\"}";
  total = 17;
  chosen = refl;
  connected = refl;
  readable =
      extract_request_body_lem short_pread disk (some solo_config) chat_request parts (pos 0) true
        short_pread-ReadsFile parts-AllSound (omega arith) refl;
  descriptor = refl;
  event = refl;
}

abbrev solo_context : AsyncEppContext
solo_context = make_context solo_config (bytes "epp:9002") chat_request.headers_in

solo_answers : PeerAnswers peer solo_context inbound
unfolding open_channel normalize_endpoint starts_with first_times_out make_context
solo_answers = record {
  uri = bytes "https://epp:9002";
  tls = system_roots (bytes "epp");
  opens = refl;
  streams = refl;
  in_time = refl;
}

upstream-IsRoutable : IsRoutable solo_config chat_request (bytes "10.0.0.2:80")
unfolding epp_header is_utf8 eq_ignore_ascii_case lower
upstream-IsRoutable = record {
  absent = refl;
  name_utf8 = refl;
  value_utf8 = refl;
  name_nul = refl;
  value_nul = refl;
  fits = refl;
}

choice-IsRouted_example :
    let pass =
      inference_access_handler roomy_nginx model_json ready_host
        (some solo_config)
        unread_request in
    (w : World) × (pass.0.world ≡ some w)
    × IsRouted roomy_nginx model_json ready_host solo_config
        (bytes "10.0.0.2:80")
        no_value
        (fire (
          settle
            (process_epp_async peer solo_context chat-CanStart.body)
            (after_pass pass.0.request 7 w))).request
unfolding epp_header to_ascii_lowercase lower eq_ignore_ascii_case
choice-IsRouted_example =
    choice-IsRouted roomy_nginx model_json ready_host peer solo_config (bytes "epp:9002") inbound
      chat_request (bytes "10.0.0.2:80") 9 chat-CanStart solo_answers refl upstream-IsRoutable refl
      (ground arith) unread_request (pos 0) 7 no_value unread-IsFirst refl refl refl (omega arith)

-- Both stages: the call of the second pass, seven milliseconds later.
abbrev second_context : AsyncEppContext
second_context = make_context open_config (bytes "epp:9002") second_request.headers_in

second_answers : PeerAnswers peer second_context inbound
unfolding open_channel normalize_endpoint starts_with first_times_out make_context
second_answers = record {
  uri = bytes "https://epp:9002";
  tls = system_roots (bytes "epp");
  opens = refl;
  streams = refl;
  in_time = refl;
}

upstream-IsRoutable_both : IsRoutable open_config chat_request (bytes "10.0.0.2:80")
unfolding epp_header is_utf8 eq_ignore_ascii_case lower
upstream-IsRoutable_both = record {
  absent = refl;
  name_utf8 = refl;
  value_utf8 = refl;
  name_nul = refl;
  value_nul = refl;
  fits = refl;
}

model-IsRouted_example :
    let pass =
      inference_access_handler roomy_nginx model_json roomy_host
        (some open_config)
        second_request in
    (w : World) × (pass.0.world ≡ some w)
    × (get_header_in second_request.headers_in (bbr_header open_config)
        ≡ some (model_or_default model_json open_config (all_contents disk parts)))
    × IsRouted roomy_nginx model_json roomy_host open_config
        (bytes "10.0.0.2:80")
        no_value
        (fire (
          settle
            (process_epp_async peer second_context (all_contents disk parts))
            (after_pass pass.0.request 7 w))).request
unfolding bbr_header epp_header is_utf8 eq_ignore_ascii_case lower configured_endpoint
    to_ascii_lowercase
model-IsRouted_example =
    model-IsRouted roomy_nginx model_json roomy_host disk open_config parts chat_request
      chat_has_body short_pread-ReadsFile (omega arith) (omega arith) peer inbound
      (bytes "epp:9002") (bytes "10.0.0.2:80") 9 7 no_value roomy_nginx-AddsHeader roomy_nginx-room
      model_json-TextIsUtf8 refl refl refl refl refl refl refl refl refl refl (ground arith) refl
      refl refl upstream-IsRoutable_both second_answers refl (omega arith)

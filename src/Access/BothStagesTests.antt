-- ===== src/Access/BothStagesTests.antt =====
-- A concrete request, from its first pass.
use ngx_inference.Prelude.{◌≡◌, refl, sym, ◌∙◌, inr, none, some, [], pos, true, arith}
use mathlib.Core.Path.{subst}
use ngx_inference.Text.{bytes, starts_with, to_ascii_lowercase, lower, eq_ignore_ascii_case}
use ngx_inference.Utf8.{is_utf8}
use ngx_inference.Nginx.{Request, Nginx, AddsHeader, ngx_done}
use ngx_inference.Nginx.Headers.{get_header_in}
use ngx_inference.Body.Parts.{all_contents}
use ngx_inference.Bbr.{bbr_header}
use ngx_inference.Bbr.Handler.{model_or_default}
use ngx_inference.Epp.Context.{AsyncEppContext, configured_endpoint, epp_header, make_context}
use ngx_inference.Epp.Delivery.{PeerAnswers, task_reads}
use ngx_inference.Epp.Failure.{upstream}
use ngx_inference.Epp.Start.{no_call}
use ngx_inference.Epp.Task.{process_epp_async, task_result}
use ngx_inference.Epp.Timer.{World, fire}
use ngx_inference.Grpc.Channel.{open_channel, normalize_endpoint, system_roots}
use ngx_inference.Grpc.Stream.{Progress, finished, first_times_out}
use ngx_inference.Epp.Failure.{TaskResult}
use ngx_inference.Access.{inference_access_handler}
use ngx_inference.Access.BothStages.{IsFirstBbr, IsFirstEpp, left, stages_settle}
use ngx_inference.Access.Repeat.{new_call}
use ngx_inference.Access.Routed.{IsRoutable}
use ngx_inference.Access.Settled.{Settled, end_of_call}
use ngx_inference.Fixtures.{
  short_pread-ReadsFile, parts, parts-AllSound, disk, roomy_host, roomy_nginx,
  roomy_nginx-ReadsFile, roomy_nginx-AddsHeader, roomy_nginx-room, model_json,
  model_json-TextIsUtf8, chat_request, open_config,
}
use ngx_inference.Fixtures.Peer.{inbound, peer}
use ngx_inference.Fixtures.Calls.{no_value, some_injective, found_injective}

-- An nginx that has the body at once, and the request before it is read.
abbrev ready_nginx : Nginx
ready_nginx = record roomy_nginx {
  read_client_request_body =
      λ handler r. (handler (record r { request_body = chat_request.request_body }), pos 0);
}

abbrev unread_request : Request
unread_request = record chat_request { request_body = none }

ready-AddsHeader : AddsHeader ready_nginx
ready-AddsHeader = record {
  added = roomy_nginx-AddsHeader.added;
  not_added = roomy_nginx-AddsHeader.not_added;
}

unread-IsFirstBbr :
    IsFirstBbr ready_nginx model_json disk open_config parts unread_request chat_request
unfolding bbr_header is_utf8 eq_ignore_ascii_case lower get_header_in
unread-IsFirstBbr = record {
  bbr_on = refl;
  unset = refl;
  read = refl;
  body = record {
    rest = pos 0;
    post_handler = true;
    files = roomy_nginx-ReadsFile;
    sound = parts-AllSound;
    complete = refl;
    stored = refl;
  };
  adds = ready-AddsHeader;
  fits = roomy_nginx-room;
  texts = model_json-TextIsUtf8;
  name = refl;
  model = refl;
  absent = refl;
  possible = omega arith;
  small = omega arith;
  full = refl;
  whole = refl;
}

chat-IsFirstEpp : IsFirstEpp roomy_host disk open_config (bytes "epp:9002") 9 chat_request
unfolding bbr_header epp_header is_utf8 eq_ignore_ascii_case lower configured_endpoint
chat-IsFirstEpp = record {
  files = short_pread-ReadsFile;
  epp_on = refl;
  chosen = refl;
  absent = refl;
  differs = refl;
  fine = refl;
  connected = refl;
  counted = ground arith;
  descriptor = refl;
  event = refl;
  roomy = refl;
}

abbrev left_request : Request
left_request =
    left ready_nginx model_json roomy_host disk open_config parts (bytes "epp:9002") 9
      unread_request chat_request unread-IsFirstBbr chat-IsFirstEpp

abbrev left_context : AsyncEppContext
left_context = make_context open_config (bytes "epp:9002") left_request.headers_in

left_answers : PeerAnswers peer left_context inbound
unfolding open_channel normalize_endpoint starts_with first_times_out make_context
left_answers = record {
  uri = bytes "https://epp:9002";
  tls = system_roots (bytes "epp");
  opens = refl;
  streams = refl;
  in_time = refl;
}

abbrev left_task : Progress TaskResult
left_task = process_epp_async peer left_context []

found : left_task ≡ finished (upstream (bytes "10.0.0.2:80"))
unfolding to_ascii_lowercase lower eq_ignore_ascii_case task_result make_context epp_header
found = task_reads peer left_context inbound [] left_answers

upstream-IsRoutable : IsRoutable open_config chat_request (bytes "10.0.0.2:80")
unfolding epp_header is_utf8 eq_ignore_ascii_case lower
upstream-IsRoutable = record {
  absent = refl;
  name_utf8 = refl;
  value_utf8 = refl;
  name_nul = refl;
  value_nul = refl;
  fits = refl;
}

default-IsRoutable : IsRoutable open_config chat_request (bytes "10.0.0.1:80")
unfolding epp_header is_utf8 eq_ignore_ascii_case lower
default-IsRoutable = record {
  absent = refl;
  name_utf8 = refl;
  value_utf8 = refl;
  name_nul = refl;
  value_nul = refl;
  fits = refl;
}

abbrev left_call : World
left_call = new_call roomy_host open_config (bytes "epp:9002") 9 left_request

stages_settle_example :
    (inference_access_handler ready_nginx model_json roomy_host (some open_config) unread_request
      ≡ (no_call left_request, ngx_done))
    × (get_header_in left_request.headers_in (bbr_header open_config)
        ≡ some (model_or_default model_json open_config (all_contents disk parts)))
    × (inference_access_handler ready_nginx model_json roomy_host (some open_config) left_request
        ≡ (record { request = left_request; world = some left_call }, ngx_done))
    × Settled ready_nginx model_json roomy_host open_config no_value left_task left_request
        (fire (end_of_call left_task 7 201 left_request left_call)).request
stages_settle_example =
    stages_settle ready_nginx model_json roomy_host disk open_config parts (bytes "epp:9002") 9
      unread_request chat_request unread-IsFirstBbr chat-IsFirstEpp peer [] 7 201 no_value
      (λ d e. subst (IsRoutable open_config chat_request) (some_injective e) default-IsRoutable)
      (λ u e. inr (
        subst (IsRoutable open_config chat_request) (found_injective (sym found ∙ e))
          upstream-IsRoutable))
      (omega arith) (omega arith)

-- ===== src/Access/Tests.antt =====
-- The access phase on concrete requests.
use ngx_inference.Prelude.{pos, ◌≡◌, inr, ap, refl, some, arith}
use ngx_inference.Text.{bytes, eq_ignore_ascii_case, lower}
use ngx_inference.Utf8.{is_utf8}
use ngx_inference.Nginx.{Request, ngx_done}
use ngx_inference.Bbr.{bbr_header, body_read_handler}
use ngx_inference.Access.{inference_access_handler}
use ngx_inference.Access.Stages.{Answers, access_status}
use ngx_inference.Access.Pipeline.{second_pass_starts_call}
use ngx_inference.Epp.Context.{epp_header, configured_endpoint, make_context, new_watcher}
use ngx_inference.Access.Served.{pass, IsOver, started-IsOver}
use ngx_inference.Epp.Begun.{ReadsBody}
use ngx_inference.Epp.Timer.{World, start}
use ngx_inference.Epp.Race.{here}
use ngx_inference.Epp.Deadline.{rounds}
use ngx_inference.Fixtures.{
  short_pread-ReadsFile, roomy_host, chat_has_body, disk, model_json, model_json-TextIsUtf8,
  roomy_nginx, roomy_nginx-AddsHeader, roomy_nginx-room, parts, chat_request, open_config,
}

access_status_example :
    Answers open_config
      (inference_access_handler roomy_nginx model_json roomy_host (some open_config) chat_request).1
access_status_example = access_status roomy_nginx model_json roomy_host open_config chat_request

second_pass_begins :
    let q = body_read_handler roomy_nginx model_json (some open_config) chat_request in
    inference_access_handler roomy_nginx model_json roomy_host (some open_config) q ≡ (
      record {
        request = q;
        world = some (
            start q roomy_host.pool (
              new_watcher (make_context open_config (bytes "epp:9002") q.headers_in) (pos 9) 1000));
      },
      ngx_done,
    )
unfolding bbr_header epp_header is_utf8 eq_ignore_ascii_case lower configured_endpoint
second_pass_begins =
    second_pass_starts_call roomy_nginx model_json roomy_host disk open_config parts chat_request
      chat_has_body short_pread-ReadsFile (omega arith) (omega arith) 9 (bytes "epp:9002")
      roomy_nginx-AddsHeader roomy_nginx-room model_json-TextIsUtf8 refl refl refl refl refl refl
      refl refl refl refl refl refl refl

roomy-ReadsBody : ReadsBody roomy_host
roomy-ReadsBody = record { reads = λ handler job. (job, refl, inr refl) }

-- The call of the second pass, with nothing from its task.
abbrev pub second_request : Request
second_request = body_read_handler roomy_nginx model_json (some open_config) chat_request

abbrev second_call : World
second_call = start second_request roomy_host.pool (
    new_watcher (make_context open_config (bytes "epp:9002") second_request.headers_in) (pos 9)
      1000)

started-IsOver_example : IsOver second_call (rounds 21 second_call)
unfolding start new_watcher
started-IsOver_example =
    started-IsOver roomy_nginx model_json roomy_host open_config
      (inference_access_handler roomy_nginx model_json roomy_host (some open_config)
        second_request).0
      second_call second_call 20 roomy-ReadsBody (pass second_request)
      (ap (λ p. p.0.world) second_pass_begins) here (omega arith)

-- ===== src/Epp/Tests.antt =====
-- The endpoint picker on concrete calls.
use ngx_inference.Prelude.{◌+◌, ◌≡◌, refl, true, false, [], none, some, pos, arith}
use ngx_inference.Text.{bytes}
use ngx_inference.Body.{got}
use ngx_inference.Epp.Context.{AsyncEppContext, ResultWatcher, is_timed_out, configured_endpoint}
use ngx_inference.Epp.Start.{no_call, body_read_done}
use ngx_inference.Epp.Callback.{CallOrAnswer, body_read_done_once}
use ngx_inference.Epp.Body.{extract_request_body}
use ngx_inference.Epp.Limit.{extract_request_body_lem}
use ngx_inference.Epp.Failure.{handle_epp_failure, upstream, gateway_time_out}
use ngx_inference.Epp.Timer.{World, empty, running, is_live, fire, start, task_send, task_write}
use ngx_inference.Epp.Race.{Reach, here, next, passes, sends, IsSafe, answers, Reach-IsSafe}
use ngx_inference.Epp.Deadline.{overdue, stray_write}
use ngx_inference.Fixtures.{
  roomy_host, roomy_pool, parts-AllSound, disk, short_pread, short_pread-ReadsFile, parts,
  chat_request, open_config,
}

abbrev context : AsyncEppContext
context = record {
  endpoint = bytes "epp:9002";
  upstream_header = bytes "X-Inference-Upstream";
  timeout_ms = 20;
  headers = [];
  use_tls = true;
  ca_file = none;
  failure_mode_allow = true;
  default_upstream = some (bytes "10.0.0.1:80");
}

abbrev watcher : ResultWatcher
watcher = record { ctx = context; start_time_ms = 1000; eventfd = pos 9 }

abbrev begun : World
begun = start chat_request roomy_pool watcher

-- Five milliseconds pass, and the task sends an upstream.
abbrev later : World
later = record begun { now = begun.now + 5 }

abbrev answered : World
answered = task_send (upstream (bytes "10.0.0.2:80")) later

reached_answered : Reach begun answered
unfolding start
reached_answered =
    next (next here (passes begun 5)) (sends later (upstream (bytes "10.0.0.2:80")) refl)

Reach-IsSafe_example : IsSafe (answers chat_request.calls) answered
Reach-IsSafe_example = Reach-IsSafe chat_request roomy_pool watcher answered refl reached_answered

stray_write_example :
    let late = overdue chat_request roomy_pool watcher in
    let ended = fire late in
    let told = task_send (upstream (bytes "10.0.0.2:80")) ended in
    let w = task_write told in
    Reach begun w
    × (is_timed_out watcher late.now ≡ true)
    × (late.channel ≡ empty)
    × (ended.request ≡ handle_epp_failure roomy_pool context gateway_time_out chat_request)
    × (is_live ended.data_pointer ≡ false)
    × (ended.drops ≡ 1)
    × (ended.fd_open ≡ false)
    × (ended.task ≡ running)
    × (told.channel ≡ empty)
    × (w.stray_writes ≡ 1)
stray_write_example =
    stray_write chat_request roomy_pool watcher (upstream (bytes "10.0.0.2:80")) refl refl
      (ground arith)

extract_request_body_lem_example :
    extract_request_body short_pread (some open_config) chat_request
    ≡ got (bytes "{\"model\":\"llama\"}") 17
extract_request_body_lem_example =
    extract_request_body_lem short_pread disk (some open_config) chat_request parts (pos 0) true
      short_pread-ReadsFile parts-AllSound (omega arith) refl

body_read_done_once_example :
    CallOrAnswer chat_request (body_read_done roomy_host (some open_config) (no_call chat_request))
unfolding configured_endpoint
body_read_done_once_example =
    body_read_done_once roomy_host open_config chat_request (bytes "epp:9002") refl refl
      ((0, 0, refl, refl, omega arith), ((3, 10, refl, refl, omega arith), tt))

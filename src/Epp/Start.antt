-- ===== src/Epp/Start.antt =====
-- How an EPP call begins (src/epp/callbacks.rs): with a body that has been read, or by reading it.
use ngx_inference.Prelude.{ℕ, Bool, Option, none, some, ℤ, ge_nat, if◌then◌else◌}
use ngx_inference.Text.{Bytes}
use ngx_inference.Config.{ModuleConfig}
use ngx_inference.Nginx.{
  Request, finalize, abort, out_of_fuel, call, Status, ngx_done, ngx_declined, ngx_error, done_code,
  is_again, core_run_phases,
}
use ngx_inference.Body.{got, err, aborted, unfinished}
use ngx_inference.Epp.Context.{
  AsyncEppContext, ResultWatcher, new_watcher, create_eventfd, make_context, configured_endpoint,
}
use ngx_inference.Epp.Body.{extract_request_body}
use ngx_inference.Epp.Failure.{Pool, handle_epp_failure, bad_gateway}
use ngx_inference.Epp.Timer.{World, start}

-- A request, and the call that was started for it, if one was.
pub record Job : Type 0 where
  pub request : Request
  pub world : Option World

-- What nginx and the kernel answer during the start of a call.
pub record Host : Type 0 where
  pub pread : ℤ → ℕ → ℤ → Option Bytes
  pub read_client_request_body : (Job → Job) → Job → Job × ℤ
  pub eventfd : ℤ  -- from libc::eventfd
  pub event_fits : Bool  -- ngx_pcalloc for the timer event
  pub pool : Pool
  pub now : ℕ

abbrev pub no_call : Request → Job
no_call r = record { request = r; world = none }

-- `setup_result_timer`, with the watcher and the task that was spawned before it. Where it fails the
-- watcher is dropped.
unfoldable pub setup_result_timer : Host → Request → ResultWatcher → Option World
setup_result_timer host r watcher =
    if r.connection
    then (if host.event_fits then some (start r host.pool watcher) else none)
    else none

-- From the eventfd on: the watcher, the task and the timer.
unfoldable pub start_call : Host → AsyncEppContext → Request → ℤ → Option World
start_call host ctx r fd = setup_result_timer host r (new_watcher ctx fd host.now)

abbrev pub failure_status : AsyncEppContext → Status
failure_status ctx = if ctx.failure_mode_allow then ngx_declined else ngx_error

-- `process_with_existing_body`, after the body has been read.
unfoldable pub existing_call : Host → AsyncEppContext → Request → Job × Status
existing_call host ctx r = elim (create_eventfd host.eventfd) [
  | none ↦ (no_call r, failure_status ctx)
  | some fd ↦ elim (start_call host ctx r fd) [
    | none ↦ (no_call r, ngx_error)
    | some w ↦ (record { request = r; world = some w }, ngx_done)
  ]
]

unfoldable pub process_with_existing_body :
    Host → Option ModuleConfig → AsyncEppContext → Request → Job × Status
process_with_existing_body host conf ctx r = elim (extract_request_body host.pread conf r) [
  | err e ↦ (no_call r, failure_status ctx)
  | got body total ↦ existing_call host ctx r
  | aborted ↦ (no_call (call abort r), ngx_error)
  | unfinished ↦ (no_call (call out_of_fuel r), ngx_error)
]

-- The failure inside the callback.
abbrev pub fail_job : Host → AsyncEppContext → Request → Job
fail_job host ctx r = no_call (handle_epp_failure host.pool ctx bad_gateway r)

unfoldable pub callback_call : Host → AsyncEppContext → Request → Job
callback_call host ctx r = elim (create_eventfd host.eventfd) [
  | none ↦ fail_job host ctx r
  | some fd ↦ elim (start_call host ctx r fd) [
    | none ↦ fail_job host ctx r
    | some w ↦ record { request = r; world = some w }
  ]
]

-- `body_read_done`, once there are a configuration and an endpoint.
unfoldable pub callback_body : Host → ModuleConfig → AsyncEppContext → Job → Job
callback_body host conf ctx job = elim (extract_request_body host.pread (some conf) job.request) [
  | err e ↦ fail_job host ctx job.request
  | got body total ↦ callback_call host ctx job.request
  | aborted ↦ no_call (call abort job.request)
  | unfinished ↦ no_call (call out_of_fuel job.request)
]

unfoldable pub body_read_done : Host → Option ModuleConfig → Job → Job
body_read_done host conf job =
    if job.request.connection
    then elim conf [
      | none ↦ job
      | some c ↦ elim (configured_endpoint c) [
        | none ↦ job
        | some endpoint ↦ callback_body host c (make_context c endpoint job.request.headers_in) job
      ]
    ]
    else job

-- What `read_body_async` does with the code of the read call.
unfoldable pub after_epp_read : Job → ℤ → Job × Status
after_epp_read job rc =
    let finish = λ (r : Request). record job { request = call (finalize done_code) r } in
    if ge_nat rc 300
    then (job, ngx_error)
    else if is_again rc
    then (finish (record job.request { write_event_handler = core_run_phases }), ngx_done)
    else (finish job.request, ngx_done)

unfoldable pub read_body_async : Host → Option ModuleConfig → Request → Job × Status
read_body_async host conf r =
    let (job, rc) = host.read_client_request_body (body_read_done host conf) (no_call r) in
    after_epp_read job rc

-- ===== src/Epp/Task.antt =====
-- The task of one EPP call (src/epp/async_processor.rs).
use ngx_inference.Prelude.{Option, none, some}
use ngx_inference.Text.{Bytes}
use ngx_inference.Grpc.Channel.{Result, ok, err, Tonic}
use ngx_inference.Grpc.Stream.{Progress, finished, waiting}
use ngx_inference.Grpc.Client.{EppCall, epp_headers_blocking_internal}
use ngx_inference.Epp.Context.{AsyncEppContext}
use ngx_inference.Epp.Failure.{TaskResult, upstream, no_upstream, epp_error}

-- The arguments of the exchange.
abbrev pub call_of : AsyncEppContext → EppCall
call_of ctx = record {
  endpoint = ctx.endpoint;
  timeout_ms = ctx.timeout_ms;
  header_name = ctx.upstream_header;
  headers = ctx.headers;
  use_tls = ctx.use_tls;
  ca_file = ctx.ca_file;
}

-- The `match` on the result of the exchange.
unfoldable pub task_result : Result (Option Bytes) → TaskResult
task_result (ok (some u)) = upstream u
task_result (ok none) = no_upstream
task_result (err e) = epp_error e

-- `process_epp_async`; the body is not used.
unfoldable pub process_epp_async : Tonic → AsyncEppContext → Bytes → Progress TaskResult
unfolding task_result
process_epp_async tonic ctx body = elim (epp_headers_blocking_internal tonic (call_of ctx)) [
  | finished r ↦ finished (task_result r)
  | waiting ↦ waiting
]

-- ===== src/Log/Failure.antt =====
-- The calls of `ngx_log_error_core` that src/epp/callbacks.rs makes when a call ends: `process_epp_result` and
-- `handle_epp_failure`, beside what they do (Epp/Failure).
use ngx_inference.Prelude.{ℕ, Bool, List, [], ◌++◌, none, some, if◌then◌else◌}
use ngx_inference.Text.{Bytes, bytes}
use ngx_inference.Text.Decimal.{to_decimal}
use ngx_inference.Nginx.{Request, clear_post_handler}
use ngx_inference.Grpc.Channel.{Error}
use ngx_inference.Epp.Context.{AsyncEppContext}
use ngx_inference.Epp.Failure.{
  Pool, TaskResult, upstream, no_upstream, epp_error, set_upstream_header, bad_gateway,
}
use ngx_inference.Log.{
  LogCall, ngx_log_error_raw, ngx_log_debug_raw, ngx_log_info_raw, ngx_log_warn_raw,
}

abbrev pub refusal_text : ℕ → Bytes
refusal_text code =
    bytes "ngx-inference: EPP fail-closed mode, returning error status " ++ to_decimal code

abbrev quoted : Bytes → Bytes → Bytes
quoted before value = before ++ (value ++ bytes "'")

-- The calls about the default upstream.
unfoldable pub default_log : Pool → AsyncEppContext → Request → List LogCall
default_log pool ctx r = elim ctx.default_upstream [
  | none ↦ []
  | some default ↦
      if (set_upstream_header pool r ctx.upstream_header default).1
      then ngx_log_warn_raw (some r)
          (quoted (bytes "ngx-inference: EPP using default upstream '") default)
      else []
]

unfoldable pub handle_epp_failure_log : Pool → AsyncEppContext → ℕ → Request → List LogCall
handle_epp_failure_log pool ctx status_code r =
    let r' = record r { request_body = clear_post_handler r.request_body } in
    if ctx.failure_mode_allow
    then ngx_log_debug_raw (some r')
        (bytes "ngx-inference: EPP fail-open mode, using default upstream")
      ++ default_log pool ctx r'
    else ngx_log_error_raw (some r') (refusal_text status_code)

-- The error that a failed task sends; `show` is the text of an error of tonic.
unfoldable pub task_error_text : (Error → Bytes) → TaskResult → Bytes
task_error_text show (upstream u) = []
task_error_text show no_upstream = bytes "EPP returned no upstream"
task_error_text show (epp_error e) = bytes "EPP error: " ++ show e

-- After `set_upstream_header`.
unfoldable pub after_set_log : Pool → AsyncEppContext → Request × Bool → List LogCall
after_set_log pool ctx (r, good) =
    if good
    then ngx_log_debug_raw (some r) (bytes "ngx-inference: EPP header set, about to resume phases")
      ++ ngx_log_debug_raw (some r) (bytes "ngx-inference: EPP phases resumed")
    else ngx_log_error_raw (some r) (bytes "ngx-inference: EPP failed to set upstream header")
      ++ handle_epp_failure_log pool ctx bad_gateway r

unfoldable pub selected_log : Pool → AsyncEppContext → Bytes → Request → List LogCall
selected_log pool ctx u r =
    ngx_log_info_raw (some r) (quoted (bytes "ngx-inference: EPP selected upstream '") u)
    ++ (ngx_log_debug_raw (some r) (bytes "ngx-inference: EPP about to set header")
        ++ after_set_log pool ctx (set_upstream_header pool r ctx.upstream_header u))

unfoldable pub failed_log :
    (Error → Bytes) → Pool → AsyncEppContext → TaskResult → Request → List LogCall
failed_log show pool ctx result r =
    ngx_log_error_raw (some r) (bytes "ngx-inference: EPP failed: " ++ task_error_text show result)
    ++ handle_epp_failure_log pool ctx bad_gateway r

-- The branches of the match.
matched_log : (Error → Bytes) → Pool → AsyncEppContext → TaskResult → Request → List LogCall
matched_log show pool ctx (upstream u) r = selected_log pool ctx u r
matched_log show pool ctx no_upstream r = failed_log show pool ctx no_upstream r
matched_log show pool ctx (epp_error e) r = failed_log show pool ctx (epp_error e) r

unfoldable pub process_epp_result_log :
    (Error → Bytes) → Pool → AsyncEppContext → TaskResult → Request → List LogCall
unfolding matched_log
process_epp_result_log show pool ctx result r =
    ngx_log_debug_raw (some r) (bytes "ngx-inference: EPP process_epp_result ENTER")
    ++ matched_log show pool ctx result r

-- ===== src/Log/Errors.antt =====
-- What the end of a call hands to nginx's log as errors (src/epp/callbacks.rs).
use ngx_inference.Prelude.{
  ℕ, ◌≡◌, refl, Bool, true, false, List, [], ◌∷◌, ◌++◌, if◌then◌else◌, arith,
}
use ngx_inference.Text.{Bytes, bytes}
use ngx_inference.Text.Digits.{all_digits}
use ngx_inference.Text.Decimal.{to_decimal, to_decimal_lem}
use ngx_inference.Nginx.{Request}
use ngx_inference.Grpc.Channel.{Error}
use ngx_inference.Epp.Context.{AsyncEppContext}
use ngx_inference.Epp.Failure.{
  Pool, TaskResult, upstream, no_upstream, epp_error, has_nul, set_upstream_header, bad_gateway,
}
use ngx_inference.Log.{
  Level, LogCall, ngx_log_err, ngx_log_warn, ngx_log_info, ngx_log_debug, ngx_log_error_raw,
  ngx_log_debug_raw, ngx_log_info_raw, ngx_log_warn_raw,
}
use ngx_inference.Log.Failure.{
  refusal_text, default_log, handle_epp_failure_log, task_error_text, after_set_log, selected_log,
  failed_log, process_epp_result_log,
}

abbrev pub is_err : Level → Bool
is_err ngx_log_err = true
is_err ngx_log_warn = false
is_err ngx_log_info = false
is_err ngx_log_debug = false

-- The formats of the calls at the level of errors, in order.
abbrev pub errors : List LogCall → List Bytes
errors [] = []
errors (e ∷ es) = if is_err e.level then e.format ∷ errors es else errors es

errors-append : (es fs : List LogCall) → errors (es ++ fs) ≡ errors es ++ errors fs
errors-append [] fs = refl
errors-append (e ∷ es) fs = ground (arith, errors-append es fs)

digits_no_nul : (s : Bytes) → all_digits s ≡ true → has_nul s ≡ false
digits_no_nul [] h = refl
digits_no_nul (c ∷ s) h = ground (arith, digits_no_nul s)

-- A refusal is the one error of a failure.
refusal_errors :
    (pool : Pool) (ctx : AsyncEppContext) (code : ℕ) (r : Request)
    → r.connection ≡ true
    → errors (handle_epp_failure_log pool ctx code r)
      ≡ (if ctx.failure_mode_allow then [] else refusal_text code ∷ [])
unfolding handle_epp_failure_log default_log ngx_log_error_raw ngx_log_debug_raw ngx_log_warn_raw
refusal_errors pool ctx code r c =
    grind (arith, errors-append, digits_no_nul (to_decimal code) (to_decimal_lem code).1)

-- Whether the result is an upstream that can be set.
abbrev pub is_set : Pool → AsyncEppContext → TaskResult → Request → Bool
is_set pool ctx (upstream u) r = (set_upstream_header pool r ctx.upstream_header u).1
is_set pool ctx no_upstream r = false
is_set pool ctx (epp_error e) r = false

-- Why a result is a failure; a text with a zero byte is not logged.
abbrev pub reason : (Error → Bytes) → TaskResult → List Bytes
reason show (upstream u) = bytes "ngx-inference: EPP failed to set upstream header" ∷ []
reason show no_upstream =
    (bytes "ngx-inference: EPP failed: " ++ bytes "EPP returned no upstream") ∷ []
reason show (epp_error e) =
    if has_nul (show e)
    then []
    else (bytes "ngx-inference: EPP failed: " ++ (bytes "EPP error: " ++ show e)) ∷ []

-- For a request with a connection, the calls of nginx's logger at the level of errors that
-- processing a result makes have exactly these formats, in order: none, where the result is an
-- upstream that can be set; otherwise the reason, and in fail-closed mode the refusal with its
-- status. The reason is that the header could not be set, that there was no upstream, or the
-- error of the call as it came, and for an error whose text holds a zero byte there is no call:
-- in fail-open mode such a failure leaves no error line.
pub error_lines :
    (show : Error → Bytes) (pool : Pool) (ctx : AsyncEppContext) (result : TaskResult) (r : Request)
    → r.connection ≡ true
    → errors (process_epp_result_log show pool ctx result r) ≡ (
        if is_set pool ctx result r
        then []
        else reason show result
          ++ (if ctx.failure_mode_allow then [] else refusal_text bad_gateway ∷ []))
unfolding process_epp_result_log selected_log failed_log after_set_log task_error_text
    ngx_log_error_raw ngx_log_debug_raw ngx_log_info_raw set_upstream_header
error_lines show pool ctx (upstream u) r c =
    grind (arith, errors-append, refusal_errors pool ctx bad_gateway r c)
error_lines show pool ctx no_upstream r c =
    grind (arith, errors-append, refusal_errors pool ctx bad_gateway r c)
error_lines show pool ctx (epp_error e) r c =
    grind (arith, errors-append, refusal_errors pool ctx bad_gateway r c)

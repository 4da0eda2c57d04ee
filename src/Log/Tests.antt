-- ===== src/Log/Tests.antt =====
-- The lines of concrete results.
use ngx_inference.Prelude.{◌≡◌, refl, true, false, [], ◌∷◌, none}
use ngx_inference.Text.{Bytes, bytes}
use ngx_inference.Text.Decimal.{to_decimal}
use ngx_inference.Grpc.Channel.{Error, recv_error}
use ngx_inference.Epp.Context.{AsyncEppContext}
use ngx_inference.Epp.Failure.{epp_error}
use ngx_inference.Log.Failure.{process_epp_result_log, refusal_text}
use ngx_inference.Log.Errors.{errors, error_lines}
use ngx_inference.Fixtures.{chat_request, roomy_pool}

abbrev closed_context : AsyncEppContext
closed_context = record {
  endpoint = bytes "epp:9002";
  upstream_header = bytes "X-Inference-Upstream";
  timeout_ms = 20;
  headers = [];
  use_tls = true;
  ca_file = none;
  failure_mode_allow = false;
  default_upstream = none;
}

abbrev describe : Error → Bytes
describe e = bytes "recv error: reset"

bad_gateway_text :
    refusal_text 502 ≡ bytes "ngx-inference: EPP fail-closed mode, returning error status 502"
unfolding to_decimal
bad_gateway_text = refl

error_lines_example :
    errors (
      process_epp_result_log describe roomy_pool closed_context (epp_error recv_error) chat_request)
    ≡ bytes "ngx-inference: EPP failed: EPP error: recv error: reset" ∷ (refusal_text 502 ∷ [])
error_lines_example =
    error_lines describe roomy_pool closed_context (epp_error recv_error) chat_request refl

-- ===== src/Epp/Failure.antt =====
-- How an EPP call ends (src/epp/callbacks.rs): the upstream header, the two failure modes, and the
-- result of the task.
use ngx_inference.Prelude.{
  ℕ, Bool, true, false, ◌||◌, not, [], ◌∷◌, ◌++◌, none, some, ◌==◌, if◌then◌else◌,
}
use ngx_inference.Text.{Bytes}
use ngx_inference.Nginx.{Request, run_phases, call, respond, clear_post_handler}
use ngx_inference.Grpc.Channel.{Error}
use ngx_inference.Epp.Context.{AsyncEppContext}

-- Whether the allocations from the request's pool succeed: the name, the value, the list's entry.
pub record Pool : Type 0 where
  pub name_fits : Bool
  pub value_fits : Bool
  pub entry_fits : Bool

-- `CString::new` fails on a text that contains a zero byte.
abbrev pub has_nul : Bytes → Bool
has_nul [] = false
has_nul (c ∷ s) = c == 0 || has_nul s

unfoldable pub set_upstream_header : Pool → Request → Bytes → Bytes → Request × Bool
set_upstream_header pool r header_name value =
    if has_nul header_name
    then (r, false)
    else if has_nul value
    then (r, false)
    else if not pool.name_fits
    then (r, false)
    else if not pool.value_fits
    then (r, false)
    else if not pool.entry_fits
    then (r, false)
    else (record r { headers_in = r.headers_in ++ ((header_name, value) ∷ []) }, true)

abbrev pub bad_gateway : ℕ
bad_gateway = 502

abbrev pub gateway_time_out : ℕ
gateway_time_out = 504

-- The default upstream, where one is configured; a failure to set it is passed over.
unfoldable pub set_default : Pool → AsyncEppContext → Request → Request
set_default pool ctx r = elim ctx.default_upstream [
  | none ↦ r
  | some default ↦ (set_upstream_header pool r ctx.upstream_header default).0
]

unfoldable pub handle_epp_failure : Pool → AsyncEppContext → ℕ → Request → Request
handle_epp_failure pool ctx status_code r =
    let r' = record r { request_body = clear_post_handler r.request_body } in
    if ctx.failure_mode_allow
    then call run_phases (set_default pool ctx r')
    else respond status_code r'

-- The `Result<String, String>` that the task sends.
pub data TaskResult : Type 0 where
  upstream : Bytes → TaskResult
  no_upstream : TaskResult
  epp_error : Error → TaskResult

-- After `set_upstream_header`: resume, or treat it as a failure.
unfoldable pub after_set : Pool → AsyncEppContext → Request × Bool → Request
after_set pool ctx (r, good) =
    if good then call run_phases r else handle_epp_failure pool ctx bad_gateway r

unfoldable pub process_epp_result : Pool → AsyncEppContext → TaskResult → Request → Request
process_epp_result pool ctx (upstream u) r =
    after_set pool ctx (set_upstream_header pool r ctx.upstream_header u)
process_epp_result pool ctx no_upstream r = handle_epp_failure pool ctx bad_gateway r
process_epp_result pool ctx (epp_error e) r = handle_epp_failure pool ctx bad_gateway r

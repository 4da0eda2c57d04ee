-- ===== src/Variable/Routing.antt =====
-- What $inference_upstream (src/lib.rs) evaluates to after the endpoint picker has answered.
use ngx_inference.Prelude.{
  ℕ, ◌≡◌, true, false, ◌&&◌, not, List, [], ◌∷◌, ◌++◌, Option, none, some, leb, length, arith,
  if◌then◌else◌, is_some, ◌⊎◌, inl, inr,
}
use ngx_inference.Text.{Bytes, is_empty}
use ngx_inference.Utf8.{is_utf8}
use ngx_inference.Config.{ModuleConfig}
use ngx_inference.Nginx.{Request, ngx_ok}
use ngx_inference.Nginx.Headers.{get_header_in, has_name, get_header_in-none, get_header_in-added}
use ngx_inference.Epp.Context.{AsyncEppContext, epp_header, make_context}
use ngx_inference.Epp.Failure.{
  Pool, set_upstream_header, set_default, handle_epp_failure, has_nul, after_set,
  process_epp_result, upstream,
}
use ngx_inference.Variable.{
  VariableValue, u32_max, set_variable_from_bytes, upstream_var_found, inference_upstream_var_get,
}

-- The text the variable is to have: the first of the header and the default upstream that is set, if
-- it is neither empty nor longer than 32 bits can say.
abbrev pub candidate : ModuleConfig → Request → Option Bytes
candidate conf r = elim (get_header_in r.headers_in (epp_header conf)) [
  | some value ↦ some value
  | none ↦ conf.default_upstream
]

abbrev pub usable : Option Bytes → Option Bytes
usable none = none
usable (some bs) = if not (is_empty bs) && leb (length bs) u32_max then some bs else none

-- The variable, with a configuration and room in the pool: its text is the header's value, else
-- the default upstream, where that is neither empty nor longer than 32 bits can say; it is
-- marked not found exactly when it has no text.
pub upstream_var_lem :
    (conf : ModuleConfig) (r : Request) (v : VariableValue)
    → let v' = (upstream_var_found true conf r v).0 in
      (v'.text ≡ usable (candidate conf r)) × (v'.not_found ≡ not (is_some v'.text))
unfolding upstream_var_found set_variable_from_bytes
upstream_var_lem conf r v = ground arith

-- The value of the variable for a text.
abbrev pub value_of : Bytes → VariableValue
value_of bs = record {
  text = some bs;
  valid = true;
  no_cacheable = false;
  escape = false;
  not_found = false;
}

var_is :
    (conf : ModuleConfig) (r : Request) (v : VariableValue) (bs : Bytes)
    → candidate conf r ≡ some bs
    → usable (some bs) ≡ some bs
    → inference_upstream_var_get true (some conf) r (some v) ≡ (some (value_of bs), ngx_ok)
unfolding inference_upstream_var_get upstream_var_found set_variable_from_bytes
var_is conf r v bs c u = ground arith

-- The headers a failure leaves in fail-open mode.
failure-headers :
    (pool : Pool) (ctx : AsyncEppContext) (code : ℕ) (r : Request) (bs : Bytes)
    → ctx.failure_mode_allow ≡ true
    → ctx.default_upstream ≡ some bs
    → let q = handle_epp_failure pool ctx code r in
      (q.headers_in ≡ r.headers_in)
      ⊎ (q.headers_in ≡ r.headers_in ++ ((ctx.upstream_header, bs) ∷ []))
unfolding handle_epp_failure set_default set_upstream_header
failure-headers pool ctx code r bs f d = ground arith

-- The headers that an upstream leaves.
pub result-headers :
    (pool : Pool) (ctx : AsyncEppContext) (r : Request) (bs : Bytes)
    → has_nul ctx.upstream_header ≡ false
    → has_nul bs ≡ false
    → pool ≡ record { name_fits = true; value_fits = true; entry_fits = true }
    → (process_epp_result pool ctx (upstream bs) r).headers_in
      ≡ r.headers_in ++ ((ctx.upstream_header, bs) ∷ [])
unfolding process_epp_result after_set set_upstream_header
result-headers pool ctx r bs n b room = ground arith

candidate-headers :
    (conf : ModuleConfig) (q : Request) (hs : List (Bytes × Bytes)) (bs : Bytes)
    → q.headers_in ≡ hs
    → get_header_in hs (epp_header conf) ≡ some bs
    → candidate conf q ≡ some bs
candidate-headers conf q hs bs e g = ground arith

-- The candidate once the header may have been appended.
candidate-cases :
    (conf : ModuleConfig) (q r : Request) (bs : Bytes)
    → (q.headers_in ≡ r.headers_in) ⊎ (q.headers_in ≡ r.headers_in ++ ((epp_header conf, bs) ∷ []))
    → has_name r.headers_in (epp_header conf) ≡ false
    → is_utf8 (epp_header conf) ≡ true
    → is_utf8 bs ≡ true
    → conf.default_upstream ≡ some bs
    → candidate conf q ≡ some bs
candidate-cases conf q r bs (inl e) absent k b def =
    ground (arith, e, get_header_in-none r.headers_in (epp_header conf) absent)
candidate-cases conf q r bs (inr e) absent k b def =
    ground (arith, e, get_header_in-added r.headers_in (epp_header conf) bs absent k b)

module _ (conf : ModuleConfig) (endpoint : Bytes) (sent_headers : List (Bytes × Bytes))
    (pool : Pool) (r : Request) (v : VariableValue) (bs : Bytes)
    (absent : has_name r.headers_in (epp_header conf) ≡ false)
    (name_utf8 : is_utf8 (epp_header conf) ≡ true) (bs_utf8 : is_utf8 bs ≡ true)
    (fits : usable (some bs) ≡ some bs) where
  -- A call that fails in fail-open mode, for a request without the header, where the header
  -- name and the default upstream are UTF-8 and the default is neither empty nor longer than
  -- 32 bits can say: the request goes on with the configured default as $inference_upstream,
  -- whether or not the header could be allocated.
  pub failure_routes_default :
      (code : ℕ)
      → conf.epp_failure_mode_allow ≡ true
      → conf.default_upstream ≡ some bs
      → inference_upstream_var_get true
          (some conf)
          (handle_epp_failure pool (make_context conf endpoint sent_headers) code r)
          (some v)
        ≡ (some (value_of bs), ngx_ok)
  unfolding make_context
  failure_routes_default code open_mode def =
      let ctx = make_context conf endpoint sent_headers in
      let q = handle_epp_failure pool ctx code r in
      var_is conf q v bs
        (candidate-cases conf q r bs (failure-headers pool ctx code r bs open_mode def) absent
          name_utf8 bs_utf8 def)
        fits

  -- A call that brings an upstream, for a request without the header, where the pool has room,
  -- the header name and the upstream are UTF-8 with no zero byte, and the upstream is neither
  -- empty nor longer than 32 bits can say: the request goes on with that upstream as
  -- $inference_upstream.
  pub result_routes_upstream :
      has_nul (epp_header conf) ≡ false
      → has_nul bs ≡ false
      → pool ≡ record { name_fits = true; value_fits = true; entry_fits = true }
      → inference_upstream_var_get true
          (some conf)
          (process_epp_result pool (make_context conf endpoint sent_headers) (upstream bs) r)
          (some v)
        ≡ (some (value_of bs), ngx_ok)
  unfolding make_context
  result_routes_upstream name_nul bs_nul room =
      let key = epp_header conf in
      let ctx = make_context conf endpoint sent_headers in
      let q = process_epp_result pool ctx (upstream bs) r in
      var_is conf q v bs
        (candidate-headers conf q (r.headers_in ++ ((key, bs) ∷ [])) bs
          (result-headers pool ctx r bs name_nul bs_nul room)
          (get_header_in-added r.headers_in key bs absent name_utf8 bs_utf8))
        fits

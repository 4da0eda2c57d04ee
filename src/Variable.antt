-- ===== src/Variable.antt =====
-- The variable $inference_upstream (src/lib.rs): the handler that evaluates it.
pub mod Routing
use ngx_inference.Prelude.{
  ℕ, Bool, true, false, not, Option, none, some, ltb, length, if◌then◌else◌,
}
use ngx_inference.Text.{Bytes, is_empty}
use ngx_inference.Config.{ModuleConfig}
use ngx_inference.Nginx.{Request, Status, ngx_ok, ngx_error}
use ngx_inference.Nginx.Headers.{get_header_in}
use ngx_inference.Epp.Context.{epp_header}

-- `ngx_variable_value_t`; `text` is the `len` bytes at `data`, and `none` where `data` is null.
pub record VariableValue : Type 0 where
  pub text : Option Bytes
  pub valid : Bool
  pub no_cacheable : Bool
  pub escape : Bool
  pub not_found : Bool

abbrev pub u32_max : ℕ
u32_max = 4294967295

-- Not found, of length 0 and with a null pointer.
abbrev pub set_not_found : VariableValue → VariableValue
set_not_found v = record v { not_found = true; text = none }

-- `set_variable_from_bytes`; `pool_fits` is whether the pool can hold the bytes.
unfoldable pub set_variable_from_bytes : Bool → Bytes → VariableValue → VariableValue × Status
set_variable_from_bytes pool_fits bs v =
    if is_empty bs
    then (set_not_found v, ngx_ok)
    else if ltb u32_max (length bs)
    then (set_not_found v, ngx_error)
    else if not pool_fits
    then (set_not_found v, ngx_error)
    else (
      record {
        text = some bs;
        valid = true;
        no_cacheable = false;
        escape = false;
        not_found = false;
      },
      ngx_ok,
    )

-- `inference_upstream_var_get`, for a pointer `v` that is null (`none`) or not.
unfoldable pub upstream_var_found :
    Bool → ModuleConfig → Request → VariableValue → VariableValue × Status
upstream_var_found pool_fits conf r v = elim (get_header_in r.headers_in (epp_header conf)) [
  | some value ↦ set_variable_from_bytes pool_fits value v
  | none ↦ elim conf.default_upstream [
    | some default ↦ set_variable_from_bytes pool_fits default v
    | none ↦ (set_not_found v, ngx_ok)
  ]
]

unfoldable pub inference_upstream_var_get :
    Bool → Option ModuleConfig → Request → Option VariableValue → Option VariableValue × Status
inference_upstream_var_get pool_fits conf r none = (none, ngx_error)
inference_upstream_var_get pool_fits none r (some v) = (some (set_not_found v), ngx_ok)
inference_upstream_var_get pool_fits (some conf) r (some v) =
    let (v', status) = upstream_var_found pool_fits conf r v in (some v', status)

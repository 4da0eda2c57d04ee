-- ===== src/Config/Directives.antt =====
-- The directive handlers and the table of commands (src/lib.rs, `ngx_conf_handler!` and
-- `NGX_HTTP_INFERENCE_COMMANDS`).
use ngx_inference.Prelude.{ℕ, Bool, List, [], ◌∷◌, Option, none, some, if◌then◌else◌}
use ngx_inference.Text.{Bytes, bytes, bytes_eq}
use ngx_inference.Utf8.{from_utf8}
use ngx_inference.Config.{ModuleConfig, set_on_off, set_string_opt, set_usize, set_u64}

-- One constructor for each handler that the macro generates.
pub data Directive : Type 0 where
  bbr_enable max_body_size bbr_header_name bbr_default_model default_upstream : Directive
  epp_enable epp_endpoint epp_timeout_ms epp_failure_mode_allow : Directive
  epp_header_name epp_tls epp_ca_file : Directive

pub data ConfStatus : Type 0 where
  conf_ok conf_error : ConfStatus

-- The arms of the macro. A `none` is the branch that logs and returns `NGX_CONF_ERROR`.
on_off_arm : (Bool → ModuleConfig) → Bytes → Option ModuleConfig
on_off_arm put val = elim (set_on_off val) [ some b ↦ some (put b) | none ↦ none ]

number_arm : (ℕ → ModuleConfig) → ℕ × Bool → Option ModuleConfig
number_arm put (parsed, good) = if good then some (put parsed) else none

-- What a handler does with its argument, which is valid UTF-8 here.
unfoldable pub store : Directive → ModuleConfig → Bytes → Option ModuleConfig
unfolding on_off_arm number_arm
store bbr_enable c val = on_off_arm (λ b. record c { bbr_enable = b }) val
store max_body_size c val =
    number_arm (λ n. record c { max_body_size = n }) (set_usize c.max_body_size val)
store bbr_header_name c val = some (record c { bbr_header_name = val })
store bbr_default_model c val = some (record c { bbr_default_model = val })
store default_upstream c val =
    some (record c { default_upstream = set_string_opt c.default_upstream val })
store epp_enable c val = on_off_arm (λ b. record c { epp_enable = b }) val
store epp_endpoint c val = some (record c { epp_endpoint = set_string_opt c.epp_endpoint val })
store epp_timeout_ms c val =
    number_arm (λ n. record c { epp_timeout_ms = n }) (set_u64 c.epp_timeout_ms val)
store epp_failure_mode_allow c val = on_off_arm (λ b. record c { epp_failure_mode_allow = b }) val
store epp_header_name c val = some (record c { epp_header_name = val })
store epp_tls c val = on_off_arm (λ b. record c { epp_tls = b }) val
store epp_ca_file c val = some (record c { epp_ca_file = some val })

-- `args[1].to_str()`, after the check that there are two arguments.
argument : List Bytes → Option Bytes
argument [] = none
argument (name ∷ []) = none
argument (name ∷ val ∷ more) = from_utf8 val

-- What `nginx` hands over in `cf`: the arguments, or a null pointer to them.
pub record ConfCall : Type 0 where
  pub args : Option (List Bytes)

keep_or_store : ModuleConfig → Option ModuleConfig → ModuleConfig × ConfStatus
keep_or_store c none = (c, conf_error)
keep_or_store c (some c') = (c', conf_ok)

-- A handler after the null checks on `cf` and `conf`.
store_argument : Directive → Option (List Bytes) → ModuleConfig → ModuleConfig × ConfStatus
unfolding keep_or_store argument
store_argument d none c = (c, conf_error)
store_argument d (some args) c = elim (argument args) [
  | none ↦ (c, conf_error)
  | some val ↦ keep_or_store c (store d c val)
]

-- The whole handler of a directive; a null pointer is `none`.
unfoldable pub set_directive :
    Directive → Option ConfCall → Option ModuleConfig → Option ModuleConfig × ConfStatus
unfolding store_argument
set_directive d none conf = (conf, conf_error)
set_directive d (some cf) none = (none, conf_error)
set_directive d (some cf) (some c) =
    let (c', status) = store_argument d cf.args c in (some c', status)

-- `NGX_HTTP_INFERENCE_COMMANDS`: the names, and the handler that stands with each.
unfoldable pub commands : List (Bytes × Directive)
commands =
    (bytes "inference_default_upstream", default_upstream)
    ∷ (bytes "inference_bbr", bbr_enable)
    ∷ (bytes "inference_max_body_size", max_body_size)
    ∷ (bytes "inference_bbr_header_name", bbr_header_name)
    ∷ (bytes "inference_bbr_default_model", bbr_default_model)
    ∷ (bytes "inference_epp", epp_enable)
    ∷ (bytes "inference_epp_endpoint", epp_endpoint)
    ∷ (bytes "inference_epp_timeout_ms", epp_timeout_ms)
    ∷ (bytes "inference_epp_failure_mode_allow", epp_failure_mode_allow)
    ∷ (bytes "inference_epp_header_name", epp_header_name)
    ∷ (bytes "inference_epp_tls", epp_tls)
    ∷ (bytes "inference_epp_ca_file", epp_ca_file)
    ∷ []

-- The entry of the table that has the name.
unfoldable pub find_command : Bytes → List (Bytes × Directive) → Option Directive
find_command key [] = none
find_command key ((name, d) ∷ rest) = if bytes_eq key name then some d else find_command key rest

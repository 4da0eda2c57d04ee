-- ===== src/Config.antt =====
-- The module's configuration (src/modules/config.rs): its record, the defaults that
-- `create_loc_conf` starts from, the merge of a level into the one below, and the parsing helpers.
pub mod Merge
pub mod Levels
pub mod Setters
pub mod Directives
pub mod Commands
pub mod Block
mod Tests
use ngx_inference.Prelude.{
  ℕ, ◌*◌, ◌-◌, Bool, true, false, ◌||◌, List, [], ◌∷◌, Option, none, some, ◌==◌, word,
  if◌then◌else◌,
}
use ngx_inference.Text.{Bytes, bytes, is_empty, eq_ignore_ascii_case, parse_uint}

pub record ModuleConfig : Type 0 where
  pub default_upstream : Option Bytes
  pub max_body_size : ℕ  -- usize
  pub bbr_enable : Bool
  pub bbr_header_name : Bytes
  pub bbr_default_model : Bytes
  pub epp_enable : Bool
  pub epp_endpoint : Option Bytes
  pub epp_timeout_ms : ℕ  -- u64
  pub epp_failure_mode_allow : Bool
  pub epp_header_name : Bytes
  pub epp_tls : Bool
  pub epp_ca_file : Option Bytes

abbrev pub ten_megabytes : ℕ
ten_megabytes = 10 * 1024 * 1024

abbrev pub model_header : Bytes
model_header = bytes "X-Gateway-Model-Name"

abbrev pub upstream_header_name : Bytes
upstream_header_name = bytes "X-Inference-Upstream"

-- `ModuleConfig::default`.
abbrev pub default_config : ModuleConfig
default_config = record {
  default_upstream = none;
  max_body_size = ten_megabytes;
  bbr_enable = false;
  bbr_header_name = model_header;
  bbr_default_model = bytes "unknown";
  epp_enable = false;
  epp_endpoint = none;
  epp_timeout_ms = 200;
  epp_failure_mode_allow = false;
  epp_header_name = upstream_header_name;
  epp_tls = true;
  epp_ca_file = none;
}

-- An optional text that is inherited when the level itself has none.
unfoldable pub inherit_opt : Option Bytes → Option Bytes → Option Bytes
inherit_opt none prev = prev
inherit_opt (some v) prev = some v

-- A number that is inherited when it is 0, with a default when both are.
unfoldable pub inherit_num : ℕ → ℕ → ℕ → ℕ
inherit_num own prev default = if own == 0 then (if prev == 0 then default else prev) else own

-- A text that is inherited when it is empty, with a default when both are.
unfoldable pub inherit_text : Bytes → Bytes → Bytes → Bytes
inherit_text own prev default =
    if is_empty own then (if is_empty prev then default else prev) else own

-- A flag that becomes true when the level above has it true.
unfoldable pub inherit_flag : Bool → Bool → Bool
inherit_flag own prev = if prev then true else own

-- `Merge::merge`: `own` is `self`, which is changed; it never fails.
unfoldable pub merge : ModuleConfig → ModuleConfig → ModuleConfig
merge own prev = record {
  default_upstream = inherit_opt own.default_upstream prev.default_upstream;
  max_body_size = inherit_num own.max_body_size prev.max_body_size ten_megabytes;
  bbr_enable = inherit_flag own.bbr_enable prev.bbr_enable;
  bbr_header_name = inherit_text own.bbr_header_name prev.bbr_header_name model_header;
  bbr_default_model = inherit_text own.bbr_default_model prev.bbr_default_model (bytes "unknown");
  epp_enable = inherit_flag own.epp_enable prev.epp_enable;
  epp_endpoint = inherit_opt own.epp_endpoint prev.epp_endpoint;
  epp_timeout_ms = inherit_num own.epp_timeout_ms prev.epp_timeout_ms 200;
  epp_failure_mode_allow = inherit_flag own.epp_failure_mode_allow prev.epp_failure_mode_allow;
  epp_header_name = inherit_text own.epp_header_name prev.epp_header_name upstream_header_name;
  epp_tls = own.epp_tls;
  epp_ca_file = inherit_opt own.epp_ca_file prev.epp_ca_file;
}

unfoldable pub set_on_off : Bytes → Option Bool
set_on_off val =
    if eq_ignore_ascii_case val (bytes "on")
    then some true
    else if eq_ignore_ascii_case val (bytes "off")
    then some false
    else none

-- The new value of `target`.
unfoldable pub set_string_opt : Option Bytes → Bytes → Option Bytes
set_string_opt target val = if is_empty val then target else some val

abbrev pub max_word : ℕ
max_word = word - 1

-- The outcome of a setter: the new value of its target, and whether it returned `Ok`.
abbrev stored : ℕ → Option ℕ → ℕ × Bool
stored target none = (target, false)
stored target (some parsed) = (parsed, true)

-- `usize` has 64 bits.
unfoldable pub set_usize : ℕ → Bytes → ℕ × Bool
set_usize target val = stored target (parse_uint max_word val)

unfoldable pub set_u64 : ℕ → Bytes → ℕ × Bool
set_u64 target val = stored target (parse_uint max_word val)

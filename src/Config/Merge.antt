-- ===== src/Config/Merge.antt =====
-- What the merge of one configuration level into another gives.
use ngx_inference.Prelude.{◌<◌, ◌≡◌, false, arith}
use ngx_inference.Text.{is_empty}
use ngx_inference.Config.{
  ModuleConfig, default_config, inherit_opt, inherit_num, inherit_text, inherit_flag, merge,
}

-- What the handlers rely on: no limit of 0, no timeout of 0, no empty name.
pub record IsUsable (c : ModuleConfig) : Type 0 where
  pub body_limit : 0 < c.max_body_size
  pub timeout : 0 < c.epp_timeout_ms
  pub model_name : is_empty c.bbr_header_name ≡ false
  pub fallback_model : is_empty c.bbr_default_model ≡ false
  pub upstream_name : is_empty c.epp_header_name ≡ false

-- A merged configuration is usable, whatever the two levels held: its limit and its timeout are
-- not 0, and its names are not empty.
pub merge-IsUsable : (own prev : ModuleConfig) → IsUsable (merge own prev)
unfolding merge inherit_opt inherit_num inherit_text inherit_flag
merge-IsUsable own prev = ground arith

-- A level that set no directive begins as the defaults. From the level above it takes the options
-- and the enable and failure flags, and none of the numbers or the names.
pub merge_unset :
    (prev : ModuleConfig)
    → merge default_config prev ≡ record default_config {
      default_upstream = prev.default_upstream;
      bbr_enable = prev.bbr_enable;
      epp_enable = prev.epp_enable;
      epp_endpoint = prev.epp_endpoint;
      epp_failure_mode_allow = prev.epp_failure_mode_allow;
      epp_ca_file = prev.epp_ca_file;
    }
unfolding merge inherit_opt inherit_num inherit_text inherit_flag
merge_unset prev = ground arith

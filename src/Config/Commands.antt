-- ===== src/Config/Commands.antt =====
-- What the directive handlers of src/lib.rs do with their arguments.
use ngx_inference.Prelude.{
  ◌≡◌, ◌≢◌, Bool, true, ◌&&◌, ◌||◌, List, ◌∷◌, Option, none, some, arith, if◌then◌else◌,
}
use ngx_inference.Text.{Bytes, bytes, eq_ignore_ascii_case}
use ngx_inference.Utf8.{from_utf8, is_utf8}
use ngx_inference.Config.{ModuleConfig, set_on_off, set_usize, set_u64}
use ngx_inference.Config.Setters.{denotes_word, set_word_exact}
use ngx_inference.Config.Directives.{
  Directive, bbr_enable, max_body_size, epp_enable, epp_timeout_ms, epp_failure_mode_allow, epp_tls,
  conf_ok, conf_error, store, set_directive,
}

abbrev is_on_off : Bytes → Bool
is_on_off val = eq_ignore_ascii_case val (bytes "on") || eq_ignore_ascii_case val (bytes "off")

-- The values that a directive takes: `on` or `off` for a switch, a 64-bit number for a size or a
-- time, any text for the others.
abbrev pub accepts : Directive → Bytes → Bool
accepts bbr_enable val = is_on_off val
accepts epp_enable val = is_on_off val
accepts epp_failure_mode_allow val = is_on_off val
accepts epp_tls val = is_on_off val
accepts max_body_size val = denotes_word val
accepts epp_timeout_ms val = denotes_word val
accepts _ val = true

-- A handler that is given a value succeeds exactly when the value is UTF-8 and one that the
-- directive takes (`on` or `off` for a switch, a 64-bit number for a size or a time), and on an
-- error it leaves the configuration as it was.
pub set_directive_status :
    (d : Directive) (name val : Bytes) (more : List Bytes) (c : ModuleConfig)
    → let r = set_directive d (some (record { args = some (name ∷ val ∷ more) })) (some c) in
      (r.1 ≡ (if is_utf8 val && accepts d val then conf_ok else conf_error))
      × (r.1 ≡ conf_error → r.0 ≡ some c)
unfolding set_directive store from_utf8 set_on_off
set_directive_status d name val more c =
    ground (arith, set_word_exact c.max_body_size val, set_word_exact c.epp_timeout_ms val)

-- One directive's store after another's, the first of which may have failed.
abbrev pub then_store : Directive → Bytes → Option ModuleConfig → Option ModuleConfig
then_store d val none = none
then_store d val (some c) = store d c val

-- Two different directives of one block may stand in either order: both orders succeed or both
-- fail, and the configuration that they leave is the same.
pub store_comm :
    (d e : Directive) (c : ModuleConfig) (a b : Bytes)
    → d ≢ e
    → then_store e b (store d c a) ≡ then_store d a (store e c b)
unfolding store set_usize set_u64
store_comm d e c a b h = ground arith

-- ===== src/Config/Tests.antt =====
-- The configuration on concrete levels and texts.
use ngx_inference.Prelude.{◌≡◌, ◌≢◌, refl, inl, inr, true, false, [], ◌∷◌, none, some, arith}
use ngx_inference.Text.{bytes, eq_ignore_ascii_case, lower, parse_uint}
use ngx_inference.Utf8.{is_utf8, from_utf8}
use ngx_inference.Config.{ModuleConfig, default_config, merge, set_on_off, set_usize, set_u64}
use ngx_inference.Config.Merge.{merge_unset}
use ngx_inference.Config.Levels.{effective, effective_lem}
use ngx_inference.Config.Setters.{set_word_exact}
use ngx_inference.Config.Directives.{
  epp_timeout_ms, epp_tls, ConfCall, conf_error, store, set_directive,
}
use ngx_inference.Config.Commands.{set_directive_status}
use ngx_inference.Config.Block.{Line, run_line, run_block, directives, run_block_perm}
use mathlib.Core.Logic.{∥∥₁_elim}
use mathlib.Core.HLevel.{⊥_prop}
use mathlib.Core.List.{eq-or-mem_of_mem-cons, not-mem-nil, Nodup, Nodup-cons, Nodup-nil, Permᴰ}

-- A server level with both stages on and a default upstream.
abbrev server : ModuleConfig
server = record default_config {
  bbr_enable = true;
  epp_enable = true;
  max_body_size = 1024;
  default_upstream = some (bytes "10.0.0.1:80");
}

merge_unset_example : merge default_config server ≡ record default_config {
  bbr_enable = true;
  epp_enable = true;
  default_upstream = some (bytes "10.0.0.1:80");
}
merge_unset_example = merge_unset server

effective_lem_example :
    let c = effective default_config (server ∷ default_config ∷ []) in
    (c.default_upstream ≡ some (bytes "10.0.0.1:80"))
    × (c.epp_endpoint ≡ none)
    × (c.epp_ca_file ≡ none)
    × (c.bbr_enable ≡ true)
    × (c.epp_enable ≡ true)
    × (c.epp_failure_mode_allow ≡ false)
    × (c.epp_tls ≡ true)
effective_lem_example = effective_lem default_config (server ∷ default_config ∷ [])

set_word_exact_example :
    (set_usize 7 (bytes "+1024") ≡ (1024, true)) × (set_u64 7 (bytes "+1024") ≡ (1024, true))
set_word_exact_example = set_word_exact 7 (bytes "+1024")

abbrev timeout_call : ConfCall
timeout_call = record { args = some (bytes "inference_epp_timeout_ms" ∷ bytes "5s" ∷ []) }

set_directive_status_example :
    let r = set_directive epp_timeout_ms (some timeout_call) (some server) in
    (r.1 ≡ conf_error) × (r.1 ≡ conf_error → r.0 ≡ some server)
unfolding is_utf8
set_directive_status_example =
    set_directive_status epp_timeout_ms (bytes "inference_epp_timeout_ms") (bytes "5s") [] server

timeout-ne-tls : epp_timeout_ms ≢ epp_tls
timeout-ne-tls = λ e. ground arith

-- Two lines, and a reader's block in the other order.
abbrev timeout_line : Line
timeout_line = record {
  directive = epp_timeout_ms;
  name = bytes "inference_epp_timeout_ms";
  value = bytes "500";
}

abbrev tls_line : Line
tls_line = record { directive = epp_tls; name = bytes "inference_epp_tls"; value = bytes "off" }

two_lines-Nodup : Nodup (directives (timeout_line ∷ tls_line ∷ []))
two_lines-Nodup = Nodup-cons.1 (
  λ m.
      ∥∥₁_elim (eq-or-mem_of_mem-cons m) (⊥_prop)
        (λ c. elim c [ inl e ↦ timeout-ne-tls e | inr deeper ↦ not-mem-nil deeper ]),
  Nodup-cons.1 (not-mem-nil, Nodup-nil),
)

run_block_perm_example :
    run_block (timeout_line ∷ tls_line ∷ []) (some server)
    ≡ run_block (tls_line ∷ timeout_line ∷ []) (some server)
run_block_perm_example =
    run_block_perm (timeout_line ∷ tls_line ∷ []) (tls_line ∷ timeout_line ∷ []) (some server)
      ∣ Permᴰ.swap refl refl ∣₁ two_lines-Nodup

-- What they leave.
two_lines_run :
    run_block (timeout_line ∷ tls_line ∷ []) (some server)
    ≡ some (record server { epp_timeout_ms = 500; epp_tls = false })
unfolding run_block run_line set_directive store is_utf8 from_utf8 eq_ignore_ascii_case lower
    parse_uint set_on_off set_u64
two_lines_run = refl

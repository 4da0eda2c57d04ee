-- ===== src/Config/Levels.antt =====
-- Configuration levels (http, server, location) merged one into the next, the innermost first.
use ngx_inference.Prelude.{◌≡◌, refl, Bool, ◌||◌, List, [], ◌∷◌, Option, none, some, arith}
use ngx_inference.Text.{Bytes}
use ngx_inference.Config.{ModuleConfig, inherit_opt, inherit_flag, merge}

-- The configuration that a request sees at the innermost of the levels `own ∷ outer`.
pub effective : ModuleConfig → List ModuleConfig → ModuleConfig
effective own [] = own
effective own (next ∷ outer) = merge own (effective next outer)

-- The first level that has the option.
abbrev pub nearest : (ModuleConfig → Option Bytes) → ModuleConfig → List ModuleConfig → Option Bytes
nearest field own [] = field own
nearest field own (next ∷ outer) = elim (field own) [
  | some v ↦ some v
  | none ↦ nearest field next outer
]

-- Whether the flag is on at some level.
abbrev pub any_level : (ModuleConfig → Bool) → ModuleConfig → List ModuleConfig → Bool
any_level flag own [] = flag own
any_level flag own (next ∷ outer) = flag own || any_level flag next outer

-- However many levels there are, an option comes from the nearest level that has it, an enable or
-- failure flag is on when it is on at any level, and TLS is what the innermost level says.
pub effective_lem :
    (own : ModuleConfig) (outer : List ModuleConfig)
    → let c = effective own outer in
      (c.default_upstream ≡ nearest (λ l. l.default_upstream) own outer)
      × (c.epp_endpoint ≡ nearest (λ l. l.epp_endpoint) own outer)
      × (c.epp_ca_file ≡ nearest (λ l. l.epp_ca_file) own outer)
      × (c.bbr_enable ≡ any_level (λ l. l.bbr_enable) own outer)
      × (c.epp_enable ≡ any_level (λ l. l.epp_enable) own outer)
      × (c.epp_failure_mode_allow ≡ any_level (λ l. l.epp_failure_mode_allow) own outer)
      × (c.epp_tls ≡ own.epp_tls)
unfolding effective merge inherit_opt inherit_flag
effective_lem own [] = (refl, refl, refl, refl, refl, refl, refl)
effective_lem own (next ∷ outer) = ground (arith, effective_lem next outer)

-- ===== src/Access/Shared/Overlap.antt =====
-- Passes of the access phase (src/lib.rs) while calls of earlier passes are out.
use ngx_inference.Prelude.{ℕ, zero, suc, ◌≡◌, refl, ◌∙◌, ap, List, [], ◌∷◌, some, arith}
use ngx_inference.Text.{Bytes}
use ngx_inference.Config.{ModuleConfig}
use ngx_inference.Nginx.{Request, Nginx, ngx_done}
use ngx_inference.Model.{Json}
use ngx_inference.Epp.Start.{Host}
use ngx_inference.Epp.Timer.{World, start}
use ngx_inference.Access.{inference_access_handler}
use ngx_inference.Access.Repeat.{CanCall, new_call, pass_calls}
use ngx_inference.Access.Shared.{Shared, alone, take_job, out, pass, passes, Reach, here, next}

module _ (ngx : Nginx) (json : Json) (hosts : ℕ → Host) (conf : ModuleConfig) where
  -- The handler runs n times, and nothing else happens.
  unfoldable pub passes_only : ℕ → Shared → Shared
  passes_only zero s = s
  passes_only (suc n) s = pass ngx json hosts conf n (passes_only n s)

  module _ (endpoint : Bytes) (fds : ℕ → ℕ) (r : Request)
      (can : (n : ℕ) → CanCall (hosts n) conf endpoint (fds n) r) where
    -- The calls of the first n passes, the latest first.
    abbrev pub calls_of : ℕ → List World
    calls_of zero = []
    calls_of (suc n) = new_call (hosts n) conf endpoint (fds n) r ∷ calls_of n

    all_out : (n : ℕ) → out (calls_of n) ≡ n
    unfolding start
    all_out zero = refl
    all_out (suc n) = omega (arith, all_out n)

    pub only-alone :
        (n : ℕ) → passes_only n (alone r) ≡ record { request = r; calls = calls_of n; own = 0 }
    unfolding passes_only pass take_job
    only-alone zero = refl
    only-alone (suc n) =
        ap (pass ngx json hosts conf n) (only-alone n)
        ∙ ap (λ p. take_job p.0 (record { request = r; calls = calls_of n; own = 0 }))
            (pass_calls ngx json (hosts n) conf endpoint (fds n) r (can n))
        ∙ ap (λ k. record { request = r; calls = calls_of (suc n); own = k }) (omega arith)

    only-Reach : (n : ℕ) → Reach ngx json hosts conf (alone r) (passes_only n (alone r))
    unfolding passes_only
    only-Reach zero = here
    only-Reach (suc n) = next (only-Reach n) (passes (passes_only n (alone r)) n)

    -- For a request for which a pass can make a call, when the access handler runs n times
    -- and nothing else happens: the request is as it was, n calls are out for it, and one
    -- more pass starts one more call and returns NGX_DONE.
    pub passes_overlap :
        (n : ℕ)
        → let s = passes_only n (alone r) in
          Reach ngx json hosts conf (alone r) s
          × (s.request ≡ r)
          × (out s.calls ≡ n)
          × (inference_access_handler ngx json (hosts n) (some conf) s.request ≡ (
            record { request = r; world = some (new_call (hosts n) conf endpoint (fds n) r) },
            ngx_done,
          ))
    passes_overlap n =
        let left = only-alone n in
        (
          only-Reach n,
          ap (λ (t : Shared). t.request) left,
          ap (λ (t : Shared). out t.calls) left ∙ all_out n,
          ap (λ (t : Shared). inference_access_handler ngx json (hosts n) (some conf) t.request)
                left
              ∙ pass_calls ngx json (hosts n) conf endpoint (fds n) r (can n),
        )

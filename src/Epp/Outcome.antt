-- ===== src/Epp/Outcome.antt =====
-- What one EPP call promises its request: the contract of src/epp/callbacks.rs as its callers see
-- it, with no timer, channel or task.
use ngx_inference.Prelude.{◌≡◌, ◌⊎◌, true, false, List, [], ◌∷◌, ◌++◌, some, ℕ, pos}
use ngx_inference.Text.{Bytes}
use ngx_inference.Nginx.{Request, Call, run_phases, special_response, finalize}
use ngx_inference.Nginx.Headers.{Headers}
use ngx_inference.Epp.Context.{AsyncEppContext}
use ngx_inference.Epp.Failure.{bad_gateway, gateway_time_out}

-- The call is still out; it was given up with its request; it brought an upstream; it failed and the
-- request goes on, as it was or with the default; or it failed and the request was refused.
pub data Outcome : Type 0 where
  waiting abandoned passed : Outcome
  chosen defaulted : Bytes → Outcome
  refused : ℕ → Outcome

-- What has become of the request.
abbrev pub headers_after : AsyncEppContext → Request → Outcome → Headers
headers_after ctx r (chosen u) = r.headers_in ++ ((ctx.upstream_header, u) ∷ [])
headers_after ctx r (defaulted d) = r.headers_in ++ ((ctx.upstream_header, d) ∷ [])
headers_after ctx r _ = r.headers_in

abbrev pub calls_after : Request → Outcome → List Call
calls_after r waiting = r.calls
calls_after r abandoned = r.calls
calls_after r passed = r.calls ++ (run_phases ∷ [])
calls_after r (chosen u) = r.calls ++ (run_phases ∷ [])
calls_after r (defaulted d) = r.calls ++ (run_phases ∷ [])
calls_after r (refused code) =
    (r.calls ++ (special_response code ∷ [])) ++ (finalize (pos code) ∷ [])

-- How a call with the context may end. Failing open and failing closed exclude each other.
abbrev pub MayEnd : AsyncEppContext → Outcome → Type 0
MayEnd ctx waiting = ⊥
MayEnd ctx abandoned = Unit
MayEnd ctx passed = ctx.failure_mode_allow ≡ true
MayEnd ctx (chosen u) = Unit
MayEnd ctx (defaulted d) = (ctx.failure_mode_allow ≡ true) × (ctx.default_upstream ≡ some d)
MayEnd ctx (refused code) =
    (ctx.failure_mode_allow ≡ false) × ((code ≡ bad_gateway) ⊎ (code ≡ gateway_time_out))

-- The contract as a transition system: a call that is out ends once, and then stays as it is.
pub data SpecStep (ctx : AsyncEppContext) : Outcome → Outcome → Type 0 where
  ends : {o : Outcome} → MayEnd ctx o → SpecStep ctx waiting o

pub data SpecReach (ctx : AsyncEppContext) : Outcome → Type 0 where
  begun : SpecReach ctx waiting
  later : {o p : Outcome} → SpecReach ctx o → SpecStep ctx o p → SpecReach ctx p

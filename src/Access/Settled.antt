-- ===== src/Access/Settled.antt =====
-- Whatever the endpoint picker does (src/grpc.rs, src/epp/async_processor.rs): how the request of a call goes
-- on (src/epp/callbacks.rs, src/lib.rs).
use ngx_inference.Prelude.{
  ℕ, ◌≤◌, ◌<◌, ◌≡◌, ◌≢◌, refl, sym, ◌∙◌, ap, true, false, none, some, ◌⊎◌, inl, inr, Bool-cases,
  Option-cases, arith, [], ◌∷◌, ◌++◌,
}
use mathlib.Core.Path.{subst}
use ngx_inference.Text.{Bytes}
use ngx_inference.Config.{ModuleConfig}
use ngx_inference.Nginx.{Request, Nginx, ngx_done, call, run_phases, respond, clear_post_handler}
use ngx_inference.Model.{Json}
use ngx_inference.Epp.Again.{room, failure_leaves}
use ngx_inference.Epp.Context.{AsyncEppContext, epp_header, make_context}
use ngx_inference.Epp.Failure.{
  Pool, handle_epp_failure, set_default, set_upstream_header, after_set, TaskResult, upstream,
  no_upstream, epp_error, has_nul, process_epp_result, bad_gateway, gateway_time_out,
}
use ngx_inference.Epp.Start.{Host}
use ngx_inference.Epp.Task.{process_epp_async}
use ngx_inference.Epp.Timer.{World, task_send, fire}
use ngx_inference.Grpc.Channel.{Tonic}
use ngx_inference.Grpc.Stream.{Progress, finished, waiting}
use ngx_inference.Variable.{VariableValue}
use ngx_inference.Access.{inference_access_handler}
use ngx_inference.Access.Repeat.{CanCall, new_call, pass_calls}
use ngx_inference.Access.Routed.{IsRoutable, IsRouted, after_pass, result-IsRouted}
use ngx_inference.Access.Failing.{
  Fails, brings_error, brings_nul, takes_too_long, Fails-fire, result_in_time,
}
use ngx_inference.Access.Fallback.{Fails-respond, default-IsRouted, result_stays_done}

-- The state in which the timer ends a call: within the timeout, when the task has sent its result, or,
-- when the task waits for ever, past it.
abbrev pub end_of_call : Progress TaskResult → ℕ → ℕ → Request → World → World
end_of_call (finished result) ms late r w = task_send result (after_pass r ms w)
end_of_call waiting ms late r w = after_pass r late w

-- What makes a call fail, with the status that stands for it: the task waits for ever; or it brings no
-- upstream, an error, or an upstream that cannot be put in a header.
abbrev pub TaskFails : Progress TaskResult → ℕ → Type 0
TaskFails waiting code = code ≡ gateway_time_out
TaskFails (finished no_upstream) code = code ≡ bad_gateway
TaskFails (finished (epp_error e)) code = code ≡ bad_gateway
TaskFails (finished (upstream u)) code = (has_nul u ≡ true) × (code ≡ bad_gateway)

module _ (ngx : Nginx) (json : Json) (host : Host) (conf : ModuleConfig) (v : VariableValue)
    (task : Progress TaskResult) (r : Request) where
  -- The phases have been resumed once, and nothing else was called.
  abbrev pub IsResumed : Request → Type 0
  IsResumed q = q.calls ≡ r.calls ++ (run_phases ∷ [])

  -- How a request goes on: with the upstream that the task has found; or, only if the task has failed,
  -- with the default, without any, or with the error of the failure.
  pub data Settled : Request → Type 0 where
    delivered :
        (u : Bytes) (q : Request)
        → task ≡ finished (upstream u)
        → has_nul u ≡ false
        → IsResumed q
        → IsRouted ngx json host conf u v q
        → Settled q
    fell_back :
        (code : ℕ) (d : Bytes) (q : Request)
        → TaskFails task code
        → conf.epp_failure_mode_allow ≡ true
        → conf.default_upstream ≡ some d
        → IsResumed q
        → IsRouted ngx json host conf d v q
        → Settled q
    resumed :
        (code : ℕ)
        → TaskFails task code
        → conf.epp_failure_mode_allow ≡ true
        → conf.default_upstream ≡ none
        → Settled (call run_phases (record r { request_body = clear_post_handler r.request_body }))
    refused :
        (code : ℕ)
        → TaskFails task code
        → conf.epp_failure_mode_allow ≡ false
        → Settled (respond code (record r { request_body = clear_post_handler r.request_body }))

-- A failure in fail-open mode resumes the phases, and so does an upstream that can be set.
open_resumes :
    (pool : Pool) (ctx : AsyncEppContext) (code : ℕ) (r : Request)
    → ctx.failure_mode_allow ≡ true
    → (handle_epp_failure pool ctx code r).calls ≡ r.calls ++ (run_phases ∷ [])
unfolding handle_epp_failure set_default set_upstream_header
open_resumes pool ctx code r h = ground (arith, h)

set_resumes :
    (ctx : AsyncEppContext) (u : Bytes) (r : Request)
    → has_nul ctx.upstream_header ≡ false
    → has_nul u ≡ false
    → (process_epp_result room ctx (upstream u) r).calls ≡ r.calls ++ (run_phases ∷ [])
unfolding process_epp_result after_set set_upstream_header
set_resumes ctx u r name value = ground (arith, name, value)

module _ (ngx : Nginx) (json : Json) (host : Host) (tonic : Tonic) (conf : ModuleConfig)
    (endpoint body : Bytes) (fd : ℕ) (r : Request) (v : VariableValue)
    (c : CanCall host conf endpoint fd r) (counted : r.count ≢ 0) (roomy : host.pool ≡ room)
    (defaults : (d : Bytes) → conf.default_upstream ≡ some d → IsRoutable conf r d) where
  abbrev the_task : Progress TaskResult
  the_task = process_epp_async tonic (make_context conf endpoint r.headers_in) body

  context_opens :
      conf.epp_failure_mode_allow ≡ true
      → (make_context conf endpoint r.headers_in).failure_mode_allow ≡ true
  unfolding make_context
  context_opens h = h

  context_name :
      has_nul (epp_header conf) ≡ false
      → has_nul (make_context conf endpoint r.headers_in).upstream_header ≡ false
  unfolding make_context
  context_name h = h

  failed :
      {t : World} {code : ℕ}
      → Fails tonic conf endpoint body r (new_call host conf endpoint fd r) t code
      → TaskFails the_task code
      → Settled ngx json host conf v the_task r (fire t).request
  failed {t} {code} f why = elim (Bool-cases conf.epp_failure_mode_allow) [
    | inl open_mode ↦ elim (Option-cases conf.default_upstream) [
      | inl bare ↦
          subst (Settled ngx json host conf v the_task r)
            (sym (
              Fails-fire tonic host conf endpoint body fd r c counted f
              ∙ failure_leaves host.pool conf endpoint r.headers_in code r open_mode bare))
            (resumed code why open_mode bare)
      | inr (d, default) ↦
          fell_back code d _ why open_mode default
            (ap (λ (q : Request). q.calls)
                (Fails-fire tonic host conf endpoint body fd r c counted f)
              ∙ open_resumes host.pool (make_context conf endpoint r.headers_in) code r
                  (context_opens open_mode))
            (default-IsRouted tonic host conf endpoint body fd r c counted ngx json d v t code
              open_mode default (defaults d default) roomy f).1
    ]
    | inr closed_mode ↦
        subst (Settled ngx json host conf v the_task r)
          (sym
            (Fails-respond tonic host conf endpoint body fd r c counted ngx json t code closed_mode
              f).1)
          (refused code why closed_mode)
  ]

  abbrev the_call : World
  the_call = new_call host conf endpoint fd r

  watched_result :
      (u : Bytes) (ms : ℕ)
      → ms ≤ conf.epp_timeout_ms
      → (fire (task_send (upstream u) (after_pass r ms the_call))).request
        ≡ process_epp_result room (make_context conf endpoint r.headers_in) (upstream u) r
  watched_result u ms early =
      result_in_time tonic host conf endpoint body fd r c counted ms (upstream u) early
      ∙ ap
          (λ pool. process_epp_result pool (make_context conf endpoint r.headers_in) (upstream u) r)
          roomy

  why :
      (code : ℕ) {t : Progress TaskResult}
      → the_task ≡ t
      → TaskFails t code
      → TaskFails the_task code
  why code e f = subst (λ p. TaskFails p code) (sym e) f

  settled_by :
      (ms late : ℕ) (t : Progress TaskResult)
      → ((u : Bytes) → t ≡ finished (upstream u) → (has_nul u ≡ true) ⊎ IsRoutable conf r u)
      → ms ≤ conf.epp_timeout_ms
      → conf.epp_timeout_ms < late
      → the_task ≡ t
      → Settled ngx json host conf v the_task r (fire (end_of_call t ms late r the_call)).request
  settled_by ms late waiting offered early passed e =
      failed (takes_too_long late _ _ passed) (why gateway_time_out e refl)
  settled_by ms late (finished no_upstream) offered early passed e =
      failed (brings_error ms no_upstream e refl early) (why bad_gateway e refl)
  settled_by ms late (finished (epp_error x)) offered early passed e =
      failed (brings_error ms (epp_error x) e refl early) (why bad_gateway e refl)
  settled_by ms late (finished (upstream u)) offered early passed e = elim (offered u refl) [
    | inl nul ↦ failed (brings_nul ms u e nul early) (why bad_gateway e (nul, refl))
    | inr route ↦
        delivered u _ e route.value_nul
          (ap (λ (q : Request). q.calls) (watched_result u ms early)
            ∙ set_resumes (make_context conf endpoint r.headers_in) u r
                (context_name route.name_nul) route.value_nul)
          (subst (IsRouted ngx json host conf u v) (sym (watched_result u ms early)) (
            result-IsRouted ngx json host conf endpoint r.headers_in r u route v
              (result_stays_done ngx json conf endpoint u r c.bbr_done route)))
  ]

  -- Whatever the endpoint picker does, for a request for which a pass can make a call, and
  -- which has a reference: the pass starts the call and returns NGX_DONE, and when the timer
  -- fires, within the timeout if the task ends and past it if it waits for ever, then either
  -- the task has found an upstream with no zero byte, and the request is resumed once and
  -- routed to it; or the task has failed: it waits for ever (504), or brings no upstream, an
  -- error, or an upstream with a zero byte (502). Then, in fail-open mode, the request is
  -- resumed once, routed to the default, or as it is if there is none; in fail-closed mode, it
  -- is answered with the failure's status. Routed means that the next pass declines, makes no
  -- call and changes nothing, and $inference_upstream is the upstream. The pool has room, and
  -- the default, and an upstream that the task finds and that holds no zero byte, are usable:
  -- the request lacks the header, the header's name and the text are UTF-8 with no zero byte,
  -- and the text is neither empty nor longer than 32 bits can say.
  pub call_settles :
      (ms late : ℕ)
      → ((u : Bytes) → the_task ≡ finished (upstream u) → (has_nul u ≡ true) ⊎ IsRoutable conf r u)
      → ms ≤ conf.epp_timeout_ms
      → conf.epp_timeout_ms < late
      → (inference_access_handler ngx json host (some conf) r
          ≡ (record { request = r; world = some the_call }, ngx_done))
        × Settled ngx json host conf v the_task r
            (fire (end_of_call the_task ms late r the_call)).request
  call_settles ms late offered early passed = (
    pass_calls ngx json host conf endpoint fd r c,
    settled_by ms late the_task offered early passed refl,
  )

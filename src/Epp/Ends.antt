-- ===== src/Epp/Ends.antt =====
-- How a failure and a result (handle_epp_failure and process_epp_result of src/epp/callbacks.rs) end a
-- call, against the contract of `Epp.Outcome`.
use ngx_inference.Prelude.{
  ℕ, ◌≡◌, ◌⊎◌, inl, inr, refl, Bool, true, false, [], ◌∷◌, ◌++◌, some, arith, Bool-cases,
  Option-cases,
}
use ngx_inference.Text.{Bytes}
use ngx_inference.Nginx.{Request, clear_post_handler}
use ngx_inference.Epp.Context.{AsyncEppContext}
use ngx_inference.Epp.Failure.{
  Pool, handle_epp_failure, process_epp_result, after_set, set_default, set_upstream_header,
  TaskResult, upstream, no_upstream, epp_error, bad_gateway, gateway_time_out,
}
use ngx_inference.Epp.Timer.{Oneshot, ready}
use ngx_inference.Epp.Outcome.{
  Outcome, waiting, passed, chosen, defaulted, refused, headers_after, calls_after, MayEnd,
}

-- A request that looks as the outcome says.
pub record Looks (ctx : AsyncEppContext) (r : Request) (o : Outcome) (q : Request) : Type 0 where
  pub headers : q.headers_in ≡ headers_after ctx r o
  pub calls : q.calls ≡ calls_after r o
  pub status : q.status ≡ r.status

-- The default: set, or not.
abbrev DefaultSet : Pool → AsyncEppContext → Request → Type 0
DefaultSet pool ctx r =
    let q = set_default pool ctx r in
    (q ≡ r)
    ⊎ ((d : Bytes) × (ctx.default_upstream ≡ some d)
        × (q ≡ record r { headers_in = r.headers_in ++ ((ctx.upstream_header, d) ∷ []) }))

set_upstream-cases :
    (pool : Pool) (r : Request) (name value : Bytes)
    → let q = (set_upstream_header pool r name value).0 in
      (q ≡ r) ⊎ (q ≡ record r { headers_in = r.headers_in ++ ((name, value) ∷ []) })
unfolding set_upstream_header
set_upstream-cases pool r name value = ground arith

set_default-cases : (pool : Pool) (ctx : AsyncEppContext) (r : Request) → DefaultSet pool ctx r
unfolding set_default
set_default-cases pool ctx r = elim (Option-cases ctx.default_upstream) [
  | inl nothing ↦ inl (rw nothing refl)
  | inr (d, e) ↦ elim (set_upstream-cases pool r ctx.upstream_header d) [
    | inl same ↦ inl (rw e same)
    | inr added ↦ inr (d, e, rw e added)
  ]
]

-- An upstream that was chosen is one that the task has sent.
abbrev pub Brought : Outcome → Oneshot → Type 0
Brought (chosen u) channel = channel ≡ ready (upstream u)
Brought _ channel = Unit

-- A call that ended as the contract allows, for the request `q`.
abbrev pub Ended : AsyncEppContext → Request → Oneshot → Request → Type 0
Ended ctx r channel q = (o : Outcome) × MayEnd ctx o × Brought o channel × Looks ctx r o q

pub failure_ends :
    (pool : Pool) (ctx : AsyncEppContext) (code : ℕ) (r q : Request) (channel : Oneshot)
    → (code ≡ bad_gateway) ⊎ (code ≡ gateway_time_out)
    → Looks ctx r waiting q
    → Ended ctx r channel (handle_epp_failure pool ctx code q)
unfolding handle_epp_failure
failure_ends pool ctx code r q channel allowed looks = elim (Bool-cases ctx.failure_mode_allow) [
  | inr closed ↦ (
    refused code,
    (closed, allowed),
    tt,
    record {
      headers = ground (arith, looks.headers);
      calls = ground (arith, looks.calls);
      status = ground (arith, looks.status);
    },
  )
  | inl open_mode ↦
      elim (set_default-cases pool ctx
        (record q { request_body = clear_post_handler q.request_body })) [
          | inl same ↦ (
            passed,
            open_mode,
            tt,
            record {
              headers = ground (arith, looks.headers, same);
              calls = ground (arith, looks.calls, same);
              status = ground (arith, looks.status, same);
            },
          )
          | inr (d, e, set) ↦ (
            defaulted d,
            (open_mode, e),
            tt,
            record {
              headers = ground (arith, looks.headers, set);
              calls = ground (arith, looks.calls, set);
              status = ground (arith, looks.status, set);
            },
          )
        ]
]

-- A header that was set, or a failure with 502.
set_upstream-result :
    (pool : Pool) (r : Request) (name value : Bytes)
    → let p = set_upstream_header pool r name value in
      ((p.1 ≡ true) × (p.0 ≡ record r { headers_in = r.headers_in ++ ((name, value) ∷ []) }))
      ⊎ ((p.1 ≡ false) × (p.0 ≡ r))
unfolding set_upstream_header
set_upstream-result pool r name value = ground arith

after_set_bad :
    (pool : Pool) (ctx : AsyncEppContext) (p : Request × Bool) (q : Request)
    → p.1 ≡ false
    → p.0 ≡ q
    → after_set pool ctx p ≡ handle_epp_failure pool ctx bad_gateway q
unfolding after_set
after_set_bad pool ctx p q bad same = ground (arith, bad, same)

pub result_ends :
    (pool : Pool) (ctx : AsyncEppContext) (r q : Request) (result : TaskResult)
    → Looks ctx r waiting q
    → Ended ctx r (ready result) (process_epp_result pool ctx result q)
unfolding process_epp_result after_set
result_ends pool ctx r q no_upstream looks =
    failure_ends pool ctx bad_gateway r q (ready no_upstream) (inl refl) looks
result_ends pool ctx r q (epp_error e) looks =
    failure_ends pool ctx bad_gateway r q (ready (epp_error e)) (inl refl) looks
result_ends pool ctx r q (upstream u) looks =
    elim (set_upstream-result pool q ctx.upstream_header u) [
      | inl (good, added) ↦ (
        chosen u,
        tt,
        refl,
        record {
          headers = ground (arith, looks.headers, good, added);
          calls = ground (arith, looks.calls, good, added);
          status = ground (arith, looks.status, good, added);
        },
      )
      | inr (bad, same) ↦
          let (o, m, b, l) =
            failure_ends pool ctx bad_gateway r q (ready (upstream u)) (inl refl) looks in
          (
            o,
            m,
            b,
            rw
                (after_set_bad pool ctx (set_upstream_header pool q ctx.upstream_header u) q bad
                  same)
                l,
          )
    ]

-- ===== src/Epp/Begun.antt =====
-- Every call that the module starts begins as `start` says: the descriptor is valid, the clock is that
-- of the start and the timeout that of the configuration (src/epp/mod.rs, src/epp/callbacks.rs).
use ngx_inference.Prelude.{
  ◌≡◌, ◌⊎◌, refl, sym, List, true, Option, none, some, ℤ, pos, negsuc, ge_nat, arith, if_both,
  option_both, eq_nat, is_some, leb, inl, inr,
}
use mathlib.Core.Path.{subst}
use ngx_inference.Text.{Bytes}
use ngx_inference.Config.{ModuleConfig}
use ngx_inference.Nginx.{Request, Status}
use ngx_inference.Nginx.Headers.{get_header_in}
use ngx_inference.Body.{BufRead, got, err, aborted, unfinished}
use ngx_inference.Epp.Context.{
  AsyncEppContext, ResultWatcher, new_watcher, create_eventfd, make_context, configured_endpoint,
  epp_header,
}
use ngx_inference.Epp.Body.{ExtractError, extract_request_body}
use ngx_inference.Epp.Timer.{World, start}
use ngx_inference.Epp.Start.{
  Job, Host, no_call, setup_result_timer, start_call, existing_call, process_with_existing_body,
  callback_call, callback_body, body_read_done, after_epp_read, read_body_async,
}
use ngx_inference.Epp.Processor.{by_body, with_endpoint, process_request}

-- How nginx reads a body: it may change the request, and runs the handler once, or not yet.
pub record ReadsBody (host : Host) : Type 0 where
  pub reads :
      (handler : Job → Job) (job : Job)
      → (j : Job) × (j.world ≡ job.world)
        × (((host.read_client_request_body handler job).0 ≡ j)
            ⊎ ((host.read_client_request_body handler job).0 ≡ handler j))

-- A call, if there is one, at its start.
abbrev pub IsBegun : Host → ModuleConfig → Option World → Type 0
IsBegun host conf none = Unit
IsBegun host conf (some w) =
    (r : Request) × (x : ResultWatcher) × (ge_nat x.eventfd 0 ≡ true)
    × (x.start_time_ms ≡ host.now)
    × (x.ctx.timeout_ms ≡ conf.epp_timeout_ms)
    × (w ≡ start r host.pool x)

-- A property of the four outcomes of reading a body.
read_both :
    {A : Type 0} (P : A → Type 0) (b : BufRead ExtractError) (failed read ended stuck : A)
    → P failed
    → P read
    → P ended
    → P stuck
    → P (elim b as (λ _. A) [
      | err e ↦ failed
      | got body total ↦ read
      | aborted ↦ ended
      | unfinished ↦ stuck
    ])
read_both P (err e) failed read ended stuck p q r s = p
read_both P (got body total) failed read ended stuck p q r s = q
read_both P aborted failed read ended stuck p q r s = r
read_both P unfinished failed read ended stuck p q r s = s

module _ (host : Host) (conf : ModuleConfig) where
  eventfd_valid : (z fd : ℤ) → create_eventfd z ≡ some fd → ge_nat fd 0 ≡ true
  unfolding create_eventfd
  eventfd_valid (pos n) fd e = ground (arith, e)
  eventfd_valid (negsuc n) fd e = cc

  start_call-IsBegun :
      (ctx : AsyncEppContext) (r : Request) (fd : ℤ)
      → ctx.timeout_ms ≡ conf.epp_timeout_ms
      → ge_nat fd 0 ≡ true
      → IsBegun host conf (start_call host ctx r fd)
  unfolding start_call setup_result_timer new_watcher
  start_call-IsBegun ctx r fd timeout valid =
      if_both (IsBegun host conf) r.connection _ _
        (λ there.
          if_both (IsBegun host conf) host.event_fits _ _
            (λ room. (r, new_watcher ctx fd host.now, valid, refl, timeout, refl)) (λ full. tt))
        (λ gone. tt)

  -- A job whose call, if it has one, is at its start.
  abbrev pub Begins : Job → Type 0
  Begins job = IsBegun host conf job.world

  abbrev pub BeginsWith : Job × Status → Type 0
  BeginsWith p = Begins p.0

  existing_call-Begins :
      (ctx : AsyncEppContext) (r : Request)
      → ctx.timeout_ms ≡ conf.epp_timeout_ms
      → BeginsWith (existing_call host ctx r)
  unfolding existing_call
  existing_call-Begins ctx r timeout =
      option_both BeginsWith (create_eventfd host.eventfd) _ _ (λ none_left. tt)
        (λ fd e.
          option_both BeginsWith (start_call host ctx r fd) _ _ (λ failed. tt)
            (λ w began.
              subst (IsBegun host conf) began
                (start_call-IsBegun ctx r fd timeout (eventfd_valid host.eventfd fd e))))

  callback_call-Begins :
      (ctx : AsyncEppContext) (r : Request)
      → ctx.timeout_ms ≡ conf.epp_timeout_ms
      → Begins (callback_call host ctx r)
  unfolding callback_call
  callback_call-Begins ctx r timeout =
      option_both Begins (create_eventfd host.eventfd) _ _ (λ none_left. tt)
        (λ fd e.
          option_both Begins (start_call host ctx r fd) _ _ (λ failed. tt)
            (λ w began.
              subst (IsBegun host conf) began
                (start_call-IsBegun ctx r fd timeout (eventfd_valid host.eventfd fd e))))

  process_with_existing_body-Begins :
      (ctx : AsyncEppContext) (r : Request)
      → ctx.timeout_ms ≡ conf.epp_timeout_ms
      → BeginsWith (process_with_existing_body host (some conf) ctx r)
  unfolding process_with_existing_body
  process_with_existing_body-Begins ctx r timeout =
      read_both BeginsWith (extract_request_body host.pread (some conf) r) _ _ _ _ tt
        (existing_call-Begins ctx r timeout) tt tt

  callback_body-Begins :
      (ctx : AsyncEppContext) (job : Job)
      → ctx.timeout_ms ≡ conf.epp_timeout_ms
      → Begins (callback_body host conf ctx job)
  unfolding callback_body
  callback_body-Begins ctx job timeout =
      read_both Begins (extract_request_body host.pread (some conf) job.request) _ _ _ _ tt
        (callback_call-Begins ctx job.request timeout) tt tt

  make_context_timeout :
      (endpoint : Bytes) (headers : List (Bytes × Bytes))
      → (make_context conf endpoint headers).timeout_ms ≡ conf.epp_timeout_ms
  unfolding make_context
  make_context_timeout endpoint headers = refl

  pub body_read_done-Begins :
      (job : Job) → Begins job → Begins (body_read_done host (some conf) job)
  unfolding body_read_done
  body_read_done-Begins job began =
      if_both Begins job.request.connection _ _
        (λ there.
          option_both Begins (configured_endpoint conf) _ _ (λ nowhere. began)
            (λ endpoint e.
              callback_body-Begins (make_context conf endpoint job.request.headers_in) job
                (make_context_timeout endpoint job.request.headers_in)))
        (λ gone. began)

  after_epp_read_world : (job : Job) (rc : ℤ) → (after_epp_read job rc).0.world ≡ job.world
  unfolding after_epp_read
  after_epp_read_world job rc = ground arith

  read_body_async-Begins :
      (r : Request) → ReadsBody host → BeginsWith (read_body_async host (some conf) r)
  unfolding read_body_async
  read_body_async-Begins r law =
      let read = host.read_client_request_body (body_read_done host (some conf)) (no_call r) in
      let (j, fresh, runs) = law.reads (body_read_done host (some conf)) (no_call r) in
      let began : Begins j = subst (IsBegun host conf) (sym fresh) tt in
      let began_there : Begins read.0 = elim runs [
        | inl not_yet ↦ subst Begins (sym not_yet) began
        | inr ran ↦ subst Begins (sym ran) (body_read_done-Begins j began)
      ] in
      subst (IsBegun host conf) (sym (after_epp_read_world read.0 read.1)) began_there

  -- Where the second stage starts a call, the call is at its start.
  pub process_request-Begins :
      (r : Request) → ReadsBody host → BeginsWith (process_request host conf r)
  unfolding process_request with_endpoint by_body
  process_request-Begins r law =
      if_both BeginsWith conf.epp_enable _ _
        (λ on.
          option_both BeginsWith (configured_endpoint conf) _ _ (λ nowhere. tt)
            (λ endpoint e.
              if_both BeginsWith (is_some (get_header_in r.headers_in (epp_header conf))) _ _
                (λ set. tt)
                (λ unset.
                  if_both BeginsWith (leb 300 r.status) _ _ (λ failed. tt)
                    (λ fine.
                      option_both BeginsWith r.request_body _ _
                        (λ unread. read_body_async-Begins r law)
                        (λ b there.
                          if_both BeginsWith (eq_nat b.rest 0) _ _
                            (λ whole.
                              process_with_existing_body-Begins
                                (make_context conf endpoint r.headers_in) r
                                (make_context_timeout endpoint r.headers_in))
                            (λ being_read. tt))))))
        (λ off. tt)

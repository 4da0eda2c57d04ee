-- ===== src/Epp/Delivery.antt =====
-- From the stream of the endpoint picker to the request: the task (src/epp/async_processor.rs) over
-- the client (src/grpc.rs), and then the timer (src/epp/callbacks.rs).
use ngx_inference.Prelude.{
  ◌-◌, ◌≤◌, ◌≡◌, refl, ◌∙◌, true, false, [], ◌∷◌, ◌++◌, none, some, arith, ◌≢◌, ◌⊎◌, inl, inr,
}
use ngx_inference.Text.{Bytes, to_ascii_lowercase}
use ngx_inference.Nginx.{run_phases, call}
use ngx_inference.Grpc.Mutation.{first}
use ngx_inference.Grpc.Channel.{
  ok, recv_error, Ending, closed, failed, silent, Tls, Tonic, Inbound, normalize_endpoint,
  open_channel, headers_message,
}
use ngx_inference.Grpc.Stream.{
  Progress, finished, waiting, first_times_out, stream_offers, select, read_stream-first,
}
use ngx_inference.Grpc.Client.{run_stream, exchange, epp_headers_blocking_internal}
use ngx_inference.Epp.Context.{AsyncEppContext, ResultWatcher, is_timed_out}
use ngx_inference.Epp.Failure.{
  has_nul, TaskResult, upstream, no_upstream, epp_error, bad_gateway, handle_epp_failure,
  process_epp_result, after_set, set_upstream_header,
}
use ngx_inference.Epp.Task.{task_result, process_epp_async}
use ngx_inference.Epp.Timer.{World, fire, task_send}
use ngx_inference.Epp.Poll.{IsWaiting}

-- What the peer answers to one call: the channel, and a stream whose first message comes in time.
pub record PeerAnswers (tonic : Tonic) (ctx : AsyncEppContext) (inbound : Inbound) : Type 0 where
  pub uri : Bytes
  pub tls : Tls
  pub opens :
      open_channel tonic (normalize_endpoint ctx.endpoint ctx.use_tls) ctx.use_tls ctx.ca_file
      ≡ ok (uri, tls)
  pub streams : tonic.process uri tls (headers_message ctx.headers) ≡ some inbound
  pub in_time : first_times_out ctx.timeout_ms inbound ≡ false

-- The task's result, where the peer answers.
pub task_reads :
    (tonic : Tonic) (ctx : AsyncEppContext) (inbound : Inbound) (body : Bytes)
    → PeerAnswers tonic ctx inbound
    → process_epp_async tonic ctx body
      ≡ elim (select
          (first (stream_offers (to_ascii_lowercase ctx.upstream_header) inbound.messages))
          inbound.ending) [ finished r ↦ finished (task_result r) | waiting ↦ waiting ]
unfolding process_epp_async epp_headers_blocking_internal exchange run_stream
task_reads tonic ctx inbound body a = ground (
  arith,
  a.opens,
  a.streams,
  a.in_time,
  read_stream-first (to_ascii_lowercase ctx.upstream_header) ctx.timeout_ms inbound,
)

-- The task sends its result, if it has one.
unfoldable pub settle : Progress TaskResult → World → World
settle (finished result) w = task_send result w
settle waiting w = w

-- Within the timeout, a firing hands the result of the task to `process_epp_result`.
pub fire_result :
    (x : ResultWatcher) (w : World) (result : TaskResult)
    → IsWaiting x w
    → w.now - x.start_time_ms ≤ x.ctx.timeout_ms
    → (fire (task_send result w)).request ≡ process_epp_result w.pool x.ctx result w.request
unfolding fire is_timed_out task_send
fire_result x w result i early = grind (arith, i.watching, i.handler, i.set, i.connected, i.counted)

Ending-cases : (e : Ending) → (e ≡ closed) ⊎ ((e ≡ failed) ⊎ (e ≡ silent))
Ending-cases closed = inl refl
Ending-cases failed = inr (inl refl)
Ending-cases silent = inr (inr refl)

module _ (tonic : Tonic) (inbound : Inbound) (body : Bytes) (x : ResultWatcher) (w : World)
    (a : PeerAnswers tonic x.ctx inbound) (i : IsWaiting x w)
    (early : w.now - x.start_time_ms ≤ x.ctx.timeout_ms) where
  settles :
      (result : TaskResult)
      → process_epp_async tonic x.ctx body ≡ finished result
      → (fire (settle (process_epp_async tonic x.ctx body) w)).request
        ≡ process_epp_result w.pool x.ctx result w.request
  unfolding settle
  settles result e = rw e (fire_result x w result i early)

  reads_first :
      (u : Bytes)
      → first (stream_offers (to_ascii_lowercase x.ctx.upstream_header) inbound.messages) ≡ some u
      → process_epp_async tonic x.ctx body ≡ finished (upstream u)
  unfolding task_result
  reads_first u h = task_reads tonic x.ctx inbound body a ∙ ground (arith, h)

  -- The first offer reaches `process_epp_result`.
  pub delivers :
      (u : Bytes)
      → first (stream_offers (to_ascii_lowercase x.ctx.upstream_header) inbound.messages) ≡ some u
      → (fire (settle (process_epp_async tonic x.ctx body) w)).request
        ≡ process_epp_result w.pool x.ctx (upstream u) w.request
  delivers u h = settles (upstream u) (reads_first u h)

  -- For a waiting call within its timeout, where the peer takes the connection and the call
  -- and its first message comes in time: when the task has sent its result, a firing appends
  -- to the request's headers the first value that the peer's whole stream offers under the
  -- header's name, and resumes the phases, provided that the texts hold no zero byte and the
  -- request's pool has room.
  pub choice_is_delivered :
      (u : Bytes)
      → first (stream_offers (to_ascii_lowercase x.ctx.upstream_header) inbound.messages) ≡ some u
      → has_nul x.ctx.upstream_header ≡ false
      → has_nul u ≡ false
      → w.pool ≡ record { name_fits = true; value_fits = true; entry_fits = true }
      → (fire (settle (process_epp_async tonic x.ctx body) w)).request
        ≡ call run_phases (record w.request {
          headers_in = w.request.headers_in ++ ((x.ctx.upstream_header, u) ∷ []);
        })
  unfolding process_epp_result after_set set_upstream_header
  choice_is_delivered u h name value room = delivers u h ∙ ground arith

  reads_none :
      first (stream_offers (to_ascii_lowercase x.ctx.upstream_header) inbound.messages) ≡ none
      → inbound.ending ≢ silent
      → (result : TaskResult) × (process_epp_async tonic x.ctx body ≡ finished result)
        × (process_epp_result w.pool x.ctx result w.request
            ≡ handle_epp_failure w.pool x.ctx bad_gateway w.request)
  unfolding task_result process_epp_result
  reads_none h loud = elim (Ending-cases inbound.ending) [
    | inl shut ↦ (no_upstream, task_reads tonic x.ctx inbound body a ∙ ground (arith, h), refl)
    | inr (inl broke) ↦
        (epp_error recv_error, task_reads tonic x.ctx inbound body a ∙ ground (arith, h), refl)
    | inr (inr quiet) ↦ absurd (loud quiet)
  ]

  -- For a waiting call within its timeout, where the peer takes the connection and the call
  -- and its first message comes in time: when no message of its stream offers a value under
  -- the header's name, and the stream ends or fails, a firing ends the call with the failure
  -- for 502.
  pub no_choice_fails :
      first (stream_offers (to_ascii_lowercase x.ctx.upstream_header) inbound.messages) ≡ none
      → inbound.ending ≢ silent
      → (fire (settle (process_epp_async tonic x.ctx body) w)).request
        ≡ handle_epp_failure w.pool x.ctx bad_gateway w.request
  no_choice_fails h loud = let (result, e, fails) = reads_none h loud in settles result e ∙ fails

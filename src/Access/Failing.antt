-- ===== src/Access/Failing.antt =====
-- How a call fails (src/epp/async_processor.rs, src/epp/callbacks.rs), and what the firing of its timer makes
-- of it.
use ngx_inference.Prelude.{
  ℕ, ◌-◌, ◌≤◌, ◌<◌, ◌≡◌, ◌≢◌, refl, ◌∙◌, Bool, true, false, none, pos, arith,
}
use ngx_inference.Text.{Bytes, to_ascii_lowercase}
use ngx_inference.Config.{ModuleConfig}
use ngx_inference.Nginx.{Request}
use ngx_inference.Epp.Context.{
  AsyncEppContext, ResultWatcher, is_timed_out, epp_header, make_context, new_watcher,
}
use ngx_inference.Epp.Delivery.{PeerAnswers, settle, no_choice_fails, fire_result}
use ngx_inference.Epp.Failure.{
  Pool, TaskResult, upstream, no_upstream, epp_error, has_nul, process_epp_result, after_set,
  handle_epp_failure, set_upstream_header, bad_gateway, gateway_time_out,
}
use ngx_inference.Epp.Poll.{IsWaiting, fire_times_out}
use ngx_inference.Epp.Start.{Host}
use ngx_inference.Epp.Task.{process_epp_async}
use ngx_inference.Epp.Timer.{World, Oneshot, closed_channel, TaskState, task_send, fire, start}
use ngx_inference.Grpc.Channel.{Tonic, Inbound, silent}
use ngx_inference.Grpc.Mutation.{first}
use ngx_inference.Grpc.Stream.{finished, stream_offers}
use ngx_inference.Access.Repeat.{CanCall, new_call}
use ngx_inference.Access.Routed.{after_pass}

abbrev is_upstream : TaskResult → Bool
is_upstream (upstream u) = true
is_upstream no_upstream = false
is_upstream (epp_error e) = false

module _ (tonic : Tonic) (conf : ModuleConfig) (endpoint body : Bytes) (r : Request)
    (w : World) where
  -- The ways in which the call `w` of the request `r` fails, and the code of each: the stream of the peer
  -- ends or fails without an offer, the task panics, or the timeout passes, whatever the task has done.
  pub data Fails : World → ℕ → Type 0 where
    brings_nothing :
        (inbound : Inbound) (ms : ℕ)
        → PeerAnswers tonic (make_context conf endpoint r.headers_in) inbound
        → first (stream_offers (to_ascii_lowercase (epp_header conf)) inbound.messages) ≡ none
        → inbound.ending ≢ silent
        → ms ≤ conf.epp_timeout_ms
        → Fails
            (settle
              (process_epp_async tonic (make_context conf endpoint r.headers_in) body)
              (after_pass r ms w))
            bad_gateway
    brings_error :
        (ms : ℕ) (result : TaskResult)
        → process_epp_async tonic (make_context conf endpoint r.headers_in) body ≡ finished result
        → is_upstream result ≡ false
        → ms ≤ conf.epp_timeout_ms
        → Fails (task_send result (after_pass r ms w)) bad_gateway
    brings_nul :
        (ms : ℕ) (u : Bytes)
        → process_epp_async tonic (make_context conf endpoint r.headers_in) body
          ≡ finished (upstream u)
        → has_nul u ≡ true
        → ms ≤ conf.epp_timeout_ms
        → Fails (task_send (upstream u) (after_pass r ms w)) bad_gateway
    ends_early :
        (ms : ℕ)
        → ms ≤ conf.epp_timeout_ms
        → Fails (record (after_pass r ms w) { channel = closed_channel }) bad_gateway
    takes_too_long :
        (ms : ℕ) (channel : Oneshot) (task : TaskState)
        → conf.epp_timeout_ms < ms
        → Fails (record (after_pass r ms w) { channel = channel; task = task }) gateway_time_out

-- A waiting call whose channel is closed fails with 502.
fire_closed :
    (x : ResultWatcher) (w : World)
    → IsWaiting x w
    → w.now - x.start_time_ms ≤ x.ctx.timeout_ms
    → w.channel ≡ closed_channel
    → (fire w).request ≡ handle_epp_failure w.pool x.ctx bad_gateway w.request
unfolding fire is_timed_out
fire_closed x w i early closed = grind (arith, i.watching, i.handler, i.set, i.connected, i.counted)

error_fails :
    (pool : Pool) (ctx : AsyncEppContext) (result : TaskResult) (r : Request)
    → is_upstream result ≡ false
    → process_epp_result pool ctx result r ≡ handle_epp_failure pool ctx bad_gateway r
unfolding process_epp_result
error_fails pool ctx (upstream u) r h = cc
error_fails pool ctx no_upstream r h = refl
error_fails pool ctx (epp_error e) r h = refl

nul_fails :
    (pool : Pool) (ctx : AsyncEppContext) (u : Bytes) (r : Request)
    → has_nul u ≡ true
    → process_epp_result pool ctx (upstream u) r ≡ handle_epp_failure pool ctx bad_gateway r
unfolding process_epp_result after_set set_upstream_header
nul_fails pool ctx u r nul = ground (arith, nul)

module _ (tonic : Tonic) (host : Host) (conf : ModuleConfig) (endpoint body : Bytes) (fd : ℕ)
    (r : Request) (c : CanCall host conf endpoint fd r) (counted : r.count ≢ 0) where
  abbrev watched : ResultWatcher
  watched = new_watcher (make_context conf endpoint r.headers_in) (pos fd) host.now

  watched-IsWaiting :
      (ms : ℕ) (channel : Oneshot) (task : TaskState)
      → IsWaiting watched (record (after_pass r ms (new_call host conf endpoint fd r)) {
        channel = channel;
        task = task;
      })
  unfolding start
  watched-IsWaiting ms channel task = record {
    watching = refl;
    handler = refl;
    set = refl;
    connected = c.connected;
    counted = counted;
  }

  -- A result that comes in time is processed.
  pub result_in_time :
      (ms : ℕ) (result : TaskResult)
      → ms ≤ conf.epp_timeout_ms
      → (fire (task_send result (after_pass r ms (new_call host conf endpoint fd r)))).request
        ≡ process_epp_result host.pool (make_context conf endpoint r.headers_in) result r
  unfolding start new_watcher make_context
  result_in_time ms result early =
      fire_result watched (after_pass r ms (new_call host conf endpoint fd r)) result
        (watched-IsWaiting ms _ _) (omega arith)

  pub Fails-fire :
      {t : World} {code : ℕ}
      → Fails tonic conf endpoint body r (new_call host conf endpoint fd r) t code
      → (fire t).request
        ≡ handle_epp_failure host.pool (make_context conf endpoint r.headers_in) code r
  unfolding start new_watcher make_context
  Fails-fire (brings_nothing inbound ms a offers loud early) =
      no_choice_fails tonic inbound body watched
        (after_pass r ms (new_call host conf endpoint fd r)) a (watched-IsWaiting ms _ _)
        (omega arith) offers loud
  Fails-fire (brings_error ms result e bad early) =
      result_in_time ms result early
      ∙ error_fails host.pool (make_context conf endpoint r.headers_in) result r bad
  Fails-fire (brings_nul ms u e nul early) =
      result_in_time ms (upstream u) early
      ∙ nul_fails host.pool (make_context conf endpoint r.headers_in) u r nul
  Fails-fire (ends_early ms early) =
      fire_closed watched _ (watched-IsWaiting ms closed_channel _) (omega arith) refl
  Fails-fire (takes_too_long ms channel task late) =
      (fire_times_out watched _ (watched-IsWaiting ms channel task) (omega arith)).0

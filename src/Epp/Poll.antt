-- ===== src/Epp/Poll.antt =====
-- What one firing of the result timer does, and when a call is over.
use ngx_inference.Prelude.{◌+◌, ◌-◌, ◌≤◌, ◌<◌, ◌≡◌, ◌≢◌, true, false, [], ◌∷◌, ◌++◌, arith}
use ngx_inference.Text.{Bytes}
use ngx_inference.Nginx.{run_phases, call}
use ngx_inference.Epp.Context.{ResultWatcher, is_timed_out}
use ngx_inference.Epp.Failure.{
  handle_epp_failure, process_epp_result, after_set, set_upstream_header, has_nul, upstream,
  gateway_time_out,
}
use ngx_inference.Epp.Timer.{live, ready, World, is_live, fire}

-- A call that is waiting: its event is set with a live watcher, and nginx still has the request.
pub record IsWaiting (x : ResultWatcher) (w : World) : Type 0 where
  pub watching : w.data_pointer ≡ live x
  pub handler : w.handler_set ≡ true
  pub set : w.armed ≡ true
  pub connected : w.request.connection ≡ true
  pub counted : w.request.count ≢ 0

-- For a waiting call past its timeout, a firing ends the call with the failure for 504, also
-- when a result is there. The timer is deleted although it has just expired, and so is no longer
-- in nginx's tree.
pub fire_times_out :
    (x : ResultWatcher) (w : World)
    → IsWaiting x w
    → x.ctx.timeout_ms < w.now - x.start_time_ms
    → let w' = fire w in
      (w'.request ≡ handle_epp_failure w.pool x.ctx gateway_time_out w.request)
      × (is_live w'.data_pointer ≡ false)
      × (w'.armed ≡ false)
      × (w'.idle_deletes ≡ w.idle_deletes + 1)
unfolding fire is_timed_out
fire_times_out x w i late = grind (arith, i.watching, i.handler, i.set, i.connected, i.counted)

-- For a waiting call within its timeout, a firing with an upstream in the channel appends the
-- header and resumes the phases, when the texts hold no zero byte and the request's pool has
-- room; the watcher is gone and the timer is not set.
pub fire_delivers :
    (x : ResultWatcher) (w : World) (u : Bytes)
    → IsWaiting x w
    → w.now - x.start_time_ms ≤ x.ctx.timeout_ms
    → w.channel ≡ ready (upstream u)
    → has_nul x.ctx.upstream_header ≡ false
    → has_nul u ≡ false
    → w.pool ≡ record { name_fits = true; value_fits = true; entry_fits = true }
    → let w' = fire w in
      (w'.request
        ≡ call run_phases (record w.request {
          headers_in = w.request.headers_in ++ ((x.ctx.upstream_header, u) ∷ []);
        }))
      × (is_live w'.data_pointer ≡ false)
      × (w'.armed ≡ false)
unfolding fire is_timed_out process_epp_result after_set set_upstream_header
fire_delivers x w u i early sent_u name value room =
    grind (arith, i.watching, i.handler, i.set, i.connected, i.counted)

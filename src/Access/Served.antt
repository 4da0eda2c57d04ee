-- ===== src/Access/Served.antt =====
-- From the access phase (src/lib.rs) to the end of the call that it starts (src/epp/callbacks.rs).
use ngx_inference.Prelude.{ℕ, suc, ◌+◌, ◌*◌, ◌<◌, ◌≡◌, ◌⊎◌, sym, false, some, arith, if_both, ◌==◌}
use mathlib.Core.Path.{subst}
use ngx_inference.Config.{ModuleConfig}
use ngx_inference.Nginx.{
  Request, Nginx, Status, ngx_ok, ngx_again, ngx_done, ngx_declined, ngx_error, http_status,
}
use ngx_inference.Model.{Json}
use ngx_inference.Bbr
use ngx_inference.Bbr.Body.{entity_too_large}
use ngx_inference.Epp.Start.{Job, Host, no_call, body_read_done}
use ngx_inference.Epp.Begun.{
  ReadsBody, IsBegun, Begins, BeginsWith, body_read_done-Begins, process_request-Begins,
}
use ngx_inference.Epp.Processor
use ngx_inference.Epp.Timer.{World, is_live, timer_interval_ms, start}
use ngx_inference.Epp.Race.{Reach, answers}
use ngx_inference.Epp.Deadline.{rounds}
use ngx_inference.Epp.Liveness.{call_is_answered}
use ngx_inference.Access.{after_epp, epp_stage, after_bbr, inference_access_handler}

-- What may start a call: a pass of the access phase, or the callback of a body that was read later.
pub data Starts (ngx : Nginx) (json : Json) (host : Host) (conf : ModuleConfig) : Job → Type 0 where
  pass :
      (r : Request)
      → Starts ngx json host conf (inference_access_handler ngx json host (some conf) r).0
  callback : (r : Request) → Starts ngx json host conf (body_read_done host (some conf) (no_call r))

module _ (host : Host) (conf : ModuleConfig) (law : ReadsBody host) where
  after_epp-Begins :
      (p : Job × Status) → BeginsWith host conf p → BeginsWith host conf (after_epp conf p)
  unfolding after_epp
  after_epp-Begins (job, ngx_ok) b = b
  after_epp-Begins (job, ngx_again) b = b
  after_epp-Begins (job, ngx_done) b = b
  after_epp-Begins (job, ngx_declined) b = b
  after_epp-Begins (job, ngx_error) b =
      if_both (BeginsWith host conf) conf.epp_failure_mode_allow _ _ (λ open_mode. b)
        (λ closed_mode. b)
  after_epp-Begins (job, http_status n) b = b

  epp_stage-Begins : (r : Request) → BeginsWith host conf (epp_stage host conf r)
  unfolding epp_stage
  epp_stage-Begins r =
      if_both (BeginsWith host conf) conf.epp_enable _ _
        (λ on.
          after_epp-Begins (Processor.process_request host conf r)
            (process_request-Begins host conf r law))
        (λ off. tt)

  after_bbr-Begins : (p : Request × Status) → BeginsWith host conf (after_bbr host conf p)
  unfolding after_bbr
  after_bbr-Begins (r, ngx_ok) =
      if_both (BeginsWith host conf) (r.status == entity_too_large) _ _ (λ large. tt)
        (λ other. epp_stage-Begins r)
  after_bbr-Begins (r, ngx_again) = epp_stage-Begins r
  after_bbr-Begins (r, ngx_done) = tt
  after_bbr-Begins (r, ngx_declined) = epp_stage-Begins r
  after_bbr-Begins (r, ngx_error) = tt
  after_bbr-Begins (r, http_status n) = epp_stage-Begins r

  pub Starts-Begins :
      {ngx : Nginx} {json : Json} {job : Job} → Starts ngx json host conf job → Begins host conf job
  unfolding inference_access_handler
  Starts-Begins {ngx = ngx} {json = json} (pass r) =
      if_both (BeginsWith host conf) conf.bbr_enable _ _
        (λ on. after_bbr-Begins (Bbr.process_request ngx json conf r)) (λ off. epp_stage-Begins r)
  Starts-Begins (callback r) = body_read_done-Begins host conf (no_call r) tt

-- What becomes of a call in the end: its watcher is gone, and its request has lost its connection or its
-- last reference, or has been answered once more than at the start.
abbrev pub IsOver : World → World → Type 0
IsOver w u =
    (is_live u.data_pointer ≡ false)
    × ((u.request.connection ≡ false)
        ⊎ ((u.request.count ≡ 0) ⊎ (answers u.request.calls ≡ suc (answers w.request.calls))))

begun-IsOver :
    (host : Host) (conf : ModuleConfig) (w t : World) (n : ℕ)
    → IsBegun host conf (some w)
    → Reach w t
    → host.now + conf.epp_timeout_ms < t.now + timer_interval_ms * suc n
    → IsOver w (rounds (suc n) t)
unfolding start
begun-IsOver host conf w t n (r, x, valid, at, timeout, same) reached late =
    let from_start = subst (λ s. Reach s t) same reached in
    let in_time : x.start_time_ms + x.ctx.timeout_ms < t.now + timer_interval_ms * suc n =
      omega (arith, at, timeout) in
    subst (λ s. IsOver s (rounds (suc n) t)) (sym same)
      (call_is_answered r host.pool x t n valid from_start in_time)

-- Every call is brought to an end: whatever pass of the access phase or callback of nginx starts it,
-- for any request and configuration, and whatever then happens in the timer, the task and nginx,
-- rounds of 10 ms, at least one and so many that they pass the configured timeout since its start,
-- leave it over, even if its task never sends a result. nginx is taken to run the handler of a body
-- once, or not yet.
pub started-IsOver :
    (ngx : Nginx) (json : Json) (host : Host) (conf : ModuleConfig) (job : Job) (w t : World)
    (n : ℕ)
    → ReadsBody host
    → Starts ngx json host conf job
    → job.world ≡ some w
    → Reach w t
    → host.now + conf.epp_timeout_ms < t.now + timer_interval_ms * suc n
    → IsOver w (rounds (suc n) t)
started-IsOver ngx json host conf job w t n law starts there reached late =
    begun-IsOver host conf w t n
      (subst (IsBegun host conf) there (Starts-Begins host conf law starts)) reached late

-- ===== src/Access/Shared/Safety.antt =====
-- All the calls of one request, in every order of their steps.
use ngx_inference.Prelude.{
  ℕ, ◌+◌, ◌≤◌, ◌≡◌, refl, sym, ◌∙◌, ap, true, List, [], ◌∷◌, ◌++◌, Option, none, some, length,
  arith,
}
use mathlib.Core.Path.{subst}
use ngx_inference.Config.{ModuleConfig}
use ngx_inference.Nginx.{Request, Nginx}
use ngx_inference.Model.{Json}
use ngx_inference.Epp.Begun.{ReadsBody, IsBegun, Begins}
use ngx_inference.Epp.Start.{Host, Job}
use ngx_inference.Epp.Timer.{World, is_live, task_send, task_write, task_panic}
use ngx_inference.Epp.Race
use ngx_inference.Epp.Race.{
  answers, live_count, has_fd, IsSafe, Step-IsSafe, start-IsSafe, fire-IsSafe, live_watcher,
  expires, sends, writes, panics, released, disconnected,
}
use ngx_inference.Access.Served.{Starts-Begins}
use ngx_inference.Access.Served
use ngx_inference.Access.Shared.{
  Shared, with_request, alone, and_call, take_job, out, pass, callback, bbr_callback,
  bbr_calls_back, Step, passes, calls_back, moves, Reach, here, next,
}

-- A call whose event is in the timer tree and whose descriptor is open exactly while its watcher lives,
-- and whose watcher has been freed once when it is gone, and never used after that.
pub record IsSound (w : World) : Type 0 where
  pub armed_live : w.armed ≡ is_live w.data_pointer
  pub open_live : w.fd_open ≡ is_live w.data_pointer
  pub handler : is_live w.data_pointer ≡ true → w.handler_set ≡ true
  pub valid_fd : has_fd w.data_pointer ≡ true
  pub freed_once : w.drops + live_count w.data_pointer ≡ 1
  pub unused : w.faults ≡ 0

IsSafe-IsSound : {before : ℕ} {w : World} → IsSafe before w → IsSound w
IsSafe-IsSound s = record {
  armed_live = s.armed_live;
  open_live = s.open_live;
  handler = s.handler;
  valid_fd = s.valid_fd;
  freed_once = s.freed_once;
  unused = s.unused;
}

IsSound-IsSafe : (r : Request) {w : World} → IsSound w → IsSafe (answers r.calls) (with_request r w)
IsSound-IsSafe r {w} s = record {
  armed_live = s.armed_live;
  open_live = s.open_live;
  handler = s.handler;
  valid_fd = s.valid_fd;
  freed_once = s.freed_once;
  unused = s.unused;
  answered = omega (arith, s.freed_once);
}

-- A step of a call answers the request at most once, and then the call is over.
Step-answers :
    {before : ℕ} {w u : World}
    → IsSafe before w
    → Race.Step w u
    → answers u.request.calls + live_count u.data_pointer
      ≤ answers w.request.calls + live_count w.data_pointer
unfolding task_send task_write task_panic
Step-answers s (expires w a) =
    let safe =
      fire-IsSafe (answers w.request.calls) w a (IsSound-IsSafe w.request (IsSafe-IsSound s)) in
    let (x, e) = live_watcher w.data_pointer (sym s.armed_live ∙ a) in
    omega (arith, safe.answered, ap live_count e)
Step-answers s (Race.passes w ms) = omega arith
Step-answers s (released w) = omega arith
Step-answers s (disconnected w) = omega arith
Step-answers s (sends w result t) = ground arith
Step-answers s (writes w t) = ground arith
Step-answers s (panics w t) = ground arith

abbrev pub AllSound : List World → Type 0
AllSound [] = Unit
AllSound (w ∷ ws) = IsSound w × AllSound ws

picked-IsSound :
    (before after : List World) (w : World) → AllSound (before ++ (w ∷ after)) → IsSound w
picked-IsSound [] after w (s, all) = s
picked-IsSound (v ∷ before) after w (s, all) = picked-IsSound before after w all

replaced-AllSound :
    (before after : List World) (w u : World)
    → AllSound (before ++ (w ∷ after))
    → IsSound u
    → AllSound (before ++ (u ∷ after))
replaced-AllSound [] after w u (s, all) t = (t, all)
replaced-AllSound (v ∷ before) after w u (s, all) t = (s, replaced-AllSound before after w u all t)

replaced_out :
    (before after : List World) (w u : World)
    → out (before ++ (u ∷ after)) + live_count w.data_pointer
      ≡ out (before ++ (w ∷ after)) + live_count u.data_pointer
replaced_out [] after w u = omega arith
replaced_out (v ∷ before) after w u = omega (arith, replaced_out before after w u)

replaced_length :
    (before after : List World) (w u : World)
    → length (before ++ (u ∷ after)) ≡ length (before ++ (w ∷ after))
replaced_length [] after w u = refl
replaced_length (v ∷ before) after w u = omega (arith, replaced_length before after w u)

-- The calls are sound, and the request has been answered at most once for each call that is over, and
-- otherwise by the handler and the callback themselves. `before` counts the answers from before.
pub record IsKept (before : ℕ) (s : Shared) : Type 0 where
  pub sound : AllSound s.calls
  pub answered : answers s.request.calls + out s.calls ≤ before + s.own + length s.calls

module _ (ngx : Nginx) (json : Json) (hosts : ℕ → Host) (conf : ModuleConfig)
    (law : (n : ℕ) → ReadsBody (hosts n)) where
  begun-IsSound : (host : Host) (w : World) → IsBegun host conf (some w) → IsSound w
  begun-IsSound host w (r, x, valid, at, timeout, same) =
      subst IsSound (sym same) (IsSafe-IsSound (start-IsSafe r host.pool x valid))

  and_call-AllSound :
      (host : Host) (o : Option World) (ws : List World)
      → IsBegun host conf o
      → AllSound ws
      → AllSound (and_call o ws)
  and_call-AllSound host none ws b all = all
  and_call-AllSound host (some w) ws b all = (begun-IsSound host w b, all)

  and_call_out :
      (o : Option World) (ws : List World)
      → out (and_call o ws) + length ws ≤ out ws + length (and_call o ws)
  and_call_out none ws = omega arith
  and_call_out (some w) ws = ground arith

  take_job-IsKept :
      {before : ℕ} (host : Host) (job : Job) (s : Shared)
      → Begins host conf job
      → IsKept before s
      → IsKept before (take_job job s)
  unfolding take_job
  take_job-IsKept host job s b k = record {
    sound = and_call-AllSound host job.world s.calls b k.sound;
    answered = omega (arith, k.answered, and_call_out job.world s.calls);
  }

  Step-IsKept :
      {before : ℕ} {s t : Shared} → Step ngx json hosts conf s t → IsKept before s → IsKept before t
  unfolding pass callback bbr_callback
  Step-IsKept (passes s n) k =
      take_job-IsKept (hosts n) _ s (Starts-Begins (hosts n) conf (law n) (Served.pass s.request)) k
  Step-IsKept (calls_back s n) k =
      take_job-IsKept (hosts n) _ s
        (Starts-Begins (hosts n) conf (law n) {ngx = ngx} {json = json} (Served.callback s.request))
        k
  Step-IsKept (bbr_calls_back s) k = take_job-IsKept (hosts 0) _ s tt k
  Step-IsKept (moves s before after w u e st) k =
      let all = subst AllSound e k.sound in
      let safe = IsSound-IsSafe s.request (picked-IsSound before after w all) in
      record {
        sound = replaced-AllSound before after w u all (IsSafe-IsSound (Step-IsSafe st safe));
        answered = omega (
          arith,
          k.answered,
          Step-answers safe st,
          ap out e,
          ap length e,
          replaced_out before after w u,
          replaced_length before after w u,
        );
      }

  reached-IsKept :
      {before : ℕ} {s t : Shared}
      → IsKept before s
      → Reach ngx json hosts conf s t
      → IsKept before t
  reached-IsKept k here = k
  reached-IsKept k (next r st) = Step-IsKept st (reached-IsKept k r)

  -- For a request and all the calls that passes of the access phase and callbacks start for
  -- it, in every order of these and of the steps of the timers, the tasks and nginx: each
  -- call's timer is set, and its descriptor open, exactly while its watcher lives; the watcher
  -- is freed once and never used afterwards; and the request is answered at most once for each
  -- call that is over, apart from what the handler and the callback answer themselves. nginx
  -- is taken to run the handler of a body once, or not yet.
  pub Reach-IsKept :
      (r : Request) (s : Shared)
      → Reach ngx json hosts conf (alone r) s
      → IsKept (answers r.calls) s
  Reach-IsKept r s reached = reached-IsKept (record { sound = tt; answered = omega arith }) reached

-- ===== src/Epp/Race.antt =====
-- The worker and the task of one EPP call, in every order of their steps.
use ngx_inference.Prelude.{
  ℕ, suc, ◌+◌, ◌≤◌, ◌≡◌, refl, sym, ◌∙◌, Bool, true, false, List, [], ◌∷◌, ◌++◌, ge_nat, arith,
}
use ngx_inference.Text.{Bytes}
use ngx_inference.Nginx.{Request, Call, run_phases, special_response, finalize, abort, out_of_fuel}
use ngx_inference.Epp.Context.{AsyncEppContext, ResultWatcher}
use ngx_inference.Epp.Failure.{
  Pool, handle_epp_failure, process_epp_result, after_set, set_default, set_upstream_header,
  TaskResult, upstream, no_upstream, epp_error,
}
use ngx_inference.Epp.Timer.{
  Pointer, null, dangling, live, running, sent, World, is_live, fire, task_send, task_write,
  task_panic, start,
}

-- How often a request was answered: resumed, or finalized.
abbrev pub answers : List Call → ℕ
answers [] = 0
answers (run_phases ∷ cs) = suc (answers cs)
answers (finalize rc ∷ cs) = suc (answers cs)
answers (special_response code ∷ cs) = answers cs
answers (abort ∷ cs) = answers cs
answers (out_of_fuel ∷ cs) = answers cs

pub answers-append : (cs ds : List Call) → answers (cs ++ ds) ≡ answers cs + answers ds
answers-append [] ds = omega arith
answers-append (run_phases ∷ cs) ds = omega (arith, answers-append cs ds)
answers-append (finalize rc ∷ cs) ds = omega (arith, answers-append cs ds)
answers-append (special_response code ∷ cs) ds = omega (arith, answers-append cs ds)
answers-append (abort ∷ cs) ds = omega (arith, answers-append cs ds)
answers-append (out_of_fuel ∷ cs) ds = omega (arith, answers-append cs ds)

set_upstream-calls :
    (pool : Pool) (r : Request) (name value : Bytes)
    → (set_upstream_header pool r name value).0.calls ≡ r.calls
unfolding set_upstream_header
set_upstream-calls pool r name value = ground arith

set_default-calls :
    (pool : Pool) (ctx : AsyncEppContext) (r : Request) → (set_default pool ctx r).calls ≡ r.calls
unfolding set_default
set_default-calls pool ctx r = grind (arith, set_upstream-calls)

-- A failure answers the request exactly once, in either failure mode: it is resumed, or
-- finalized.
pub answers-handle_epp_failure :
    (pool : Pool) (ctx : AsyncEppContext) (code : ℕ) (r : Request)
    → answers (handle_epp_failure pool ctx code r).calls ≡ suc (answers r.calls)
unfolding handle_epp_failure
answers-handle_epp_failure pool ctx code r = grind (arith, set_default-calls, answers-append)

-- Processing the result of a task answers the request exactly once, whether the result is an
-- upstream or an error and whether or not the header can be set.
pub answers-process_epp_result :
    (pool : Pool) (ctx : AsyncEppContext) (result : TaskResult) (r : Request)
    → answers (process_epp_result pool ctx result r).calls ≡ suc (answers r.calls)
unfolding process_epp_result after_set
answers-process_epp_result pool ctx (upstream u) r =
    grind (arith, set_upstream-calls, answers-append, answers-handle_epp_failure)
answers-process_epp_result pool ctx no_upstream r = answers-handle_epp_failure pool ctx 502 r
answers-process_epp_result pool ctx (epp_error e) r = answers-handle_epp_failure pool ctx 502 r

-- What can happen next: the timer expires, time passes, nginx begins to free the request or loses
-- its connection, or the task sends its result, writes to the descriptor, or panics.
pub data Step : World → World → Type 0 where
  expires : (w : World) → w.armed ≡ true → Step w (fire w)
  passes : (w : World) (ms : ℕ) → Step w (record w { now = w.now + ms })
  released : (w : World) → Step w (record w { request = record w.request { count = 0 } })
  disconnected :
      (w : World) → Step w (record w { request = record w.request { connection = false } })
  sends : (w : World) (result : TaskResult) → w.task ≡ running → Step w (task_send result w)
  writes : (w : World) → w.task ≡ sent → Step w (task_write w)
  panics : (w : World) → w.task ≡ running → Step w (task_panic w)

pub data Reach (s : World) : World → Type 0 where
  here : Reach s s
  next : {t u : World} → Reach s t → Step t u → Reach s u

abbrev pub live_count : Pointer → ℕ
live_count null = 0
live_count dangling = 0
live_count (live w) = 1

abbrev pub has_fd : Pointer → Bool
has_fd null = true
has_fd dangling = true
has_fd (live w) = ge_nat w.eventfd 0

-- A safe state between two steps: the event is in the timer tree exactly while its watcher lives, and then its
-- handler is set and the descriptor is open; the watcher has been freed once when it is gone, and
-- never used after that; the request has been answered at most once, and not while the watcher
-- lives. `before` counts the answers from before the call.
pub record IsSafe (before : ℕ) (w : World) : Type 0 where
  pub armed_live : w.armed ≡ is_live w.data_pointer
  pub open_live : w.fd_open ≡ is_live w.data_pointer
  pub handler : is_live w.data_pointer ≡ true → w.handler_set ≡ true
  pub valid_fd : has_fd w.data_pointer ≡ true
  pub freed_once : w.drops + live_count w.data_pointer ≡ 1
  pub unused : w.faults ≡ 0
  pub answered : answers w.request.calls + live_count w.data_pointer ≤ suc before

pub start-IsSafe :
    (r : Request) (pool : Pool) (watcher : ResultWatcher)
    → ge_nat watcher.eventfd 0 ≡ true
    → IsSafe (answers r.calls) (start r pool watcher)
unfolding start
start-IsSafe r pool watcher h = ground arith

pub live_watcher : (p : Pointer) → is_live p ≡ true → (x : ResultWatcher) × (p ≡ live x)
live_watcher null h = cc
live_watcher dangling h = cc
live_watcher (live x) h = (x, refl)

pub fire-IsSafe :
    (before : ℕ) (w : World) → w.armed ≡ true → IsSafe before w → IsSafe before (fire w)
unfolding fire
fire-IsSafe before w a s =
    let (x, e) = live_watcher w.data_pointer (sym s.armed_live ∙ a) in
    grind (
      arith,
      e,
      answers-handle_epp_failure w.pool x.ctx 504 w.request,
      answers-handle_epp_failure w.pool x.ctx 502 w.request,
      answers-process_epp_result,
    )

pub Step-IsSafe : {before : ℕ} {w u : World} → Step w u → IsSafe before w → IsSafe before u
unfolding task_send task_write task_panic
Step-IsSafe {before} (expires w a) s = fire-IsSafe before w a s
Step-IsSafe (passes w ms) s = ground arith
Step-IsSafe (released w) s = ground arith
Step-IsSafe (disconnected w) s = ground arith
Step-IsSafe (sends w result t) s = ground arith
Step-IsSafe (writes w t) s = ground arith
Step-IsSafe (panics w t) s = ground arith

kept-IsSafe : {before : ℕ} {s w : World} → IsSafe before s → Reach s w → IsSafe before w
kept-IsSafe h here = h
kept-IsSafe h (next r st) = Step-IsSafe st (kept-IsSafe h r)

-- In every order of the steps, from the start of a call with a valid descriptor: the timer is set
-- exactly while the watcher lives, so the watcher is never leaked; it is freed once and never used
-- afterwards; its descriptor is open exactly while it lives; and the request is answered at most
-- once, and only after the watcher is gone.
pub Reach-IsSafe :
    (r : Request) (pool : Pool) (watcher : ResultWatcher) (w : World)
    → ge_nat watcher.eventfd 0 ≡ true
    → Reach (start r pool watcher) w
    → IsSafe (answers r.calls) w
Reach-IsSafe r pool watcher w h reached = kept-IsSafe (start-IsSafe r pool watcher h) reached

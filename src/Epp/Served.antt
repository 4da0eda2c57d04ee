-- ===== src/Epp/Served.antt =====
-- That a request which is still held is answered as soon as its watcher is gone (src/epp/callbacks.rs).
use ngx_inference.Prelude.{ℕ, suc, ◌+◌, ◌≡◌, sym, ◌∙◌, true, false, ◌==◌, arith}
use ngx_inference.Text.{Bytes}
use ngx_inference.Nginx.{Request}
use ngx_inference.Epp.Context.{AsyncEppContext, ResultWatcher, is_timed_out}
use ngx_inference.Epp.Failure.{
  Pool, handle_epp_failure, process_epp_result, after_set, set_default, set_upstream_header,
  TaskResult, upstream, no_upstream, epp_error,
}
use ngx_inference.Epp.Timer.{World, fire, task_send, task_write, task_panic, start}
use ngx_inference.Epp.Race.{
  Step, expires, passes, released, disconnected, sends, writes, panics, Reach, here, next, IsSafe,
  Step-IsSafe, answers, answers-handle_epp_failure, answers-process_epp_result, live_count,
  live_watcher,
}

-- What holds the request: its connection, and its count of references.
abbrev SameHold : Request → Request → Type 0
SameHold q r = (q.connection ≡ r.connection) × (q.count ≡ r.count)

set_upstream-SameHold :
    (pool : Pool) (r : Request) (name value : Bytes)
    → SameHold (set_upstream_header pool r name value).0 r
unfolding set_upstream_header
set_upstream-SameHold pool r name value = ground arith

set_default-SameHold :
    (pool : Pool) (ctx : AsyncEppContext) (r : Request) → SameHold (set_default pool ctx r) r
unfolding set_default
set_default-SameHold pool ctx r = grind (arith, set_upstream-SameHold)

failure-SameHold :
    (pool : Pool) (ctx : AsyncEppContext) (code : ℕ) (r : Request)
    → SameHold (handle_epp_failure pool ctx code r) r
unfolding handle_epp_failure
failure-SameHold pool ctx code r = grind (arith, set_default-SameHold)

result-SameHold :
    (pool : Pool) (ctx : AsyncEppContext) (result : TaskResult) (r : Request)
    → SameHold (process_epp_result pool ctx result r) r
unfolding process_epp_result after_set
result-SameHold pool ctx (upstream u) r = grind (arith, set_upstream-SameHold, failure-SameHold)
result-SameHold pool ctx no_upstream r = failure-SameHold pool ctx 502 r
result-SameHold pool ctx (epp_error e) r = failure-SameHold pool ctx 502 r

-- A request that is still held is answered as soon as its watcher is gone.
pub record IsServed (before : ℕ) (w : World) : Type 0 where
  pub served :
      w.request.connection ≡ true
      → (w.request.count == 0) ≡ false
      → answers w.request.calls + live_count w.data_pointer ≡ suc before

pub fire-IsServed :
    (before : ℕ) (w : World)
    → w.armed ≡ true
    → IsSafe before w
    → IsServed before w
    → IsServed before (fire w)
unfolding fire is_timed_out
fire-IsServed before w a s i =
    let (x, e) = live_watcher w.data_pointer (sym s.armed_live ∙ a) in
    record {
      served = λ c n. grind (
        arith,
        e,
        s.handler,
        i.served,
        failure-SameHold,
        result-SameHold,
        answers-handle_epp_failure w.pool x.ctx 504 w.request,
        answers-handle_epp_failure w.pool x.ctx 502 w.request,
        answers-process_epp_result,
      );
    }

Step-IsServed :
    {before : ℕ} {w u : World} → Step w u → IsSafe before w → IsServed before w → IsServed before u
unfolding task_send task_write task_panic
Step-IsServed {before} (expires w a) s i = fire-IsServed before w a s i
Step-IsServed (passes w ms) s i = ground (arith, i.served)
Step-IsServed (released w) s i = ground (arith, i.served)
Step-IsServed (disconnected w) s i = ground (arith, i.served)
Step-IsServed (sends w result t) s i = ground (arith, i.served)
Step-IsServed (writes w t) s i = ground (arith, i.served)
Step-IsServed (panics w t) s i = ground (arith, i.served)

pub start-IsServed :
    (r : Request) (pool : Pool) (watcher : ResultWatcher)
    → IsServed (answers r.calls) (start r pool watcher)
unfolding start
start-IsServed r pool watcher = ground arith

pub kept-IsServed :
    {before : ℕ} {s w : World}
    → IsSafe before s
    → IsServed before s
    → Reach s w
    → IsSafe before w × IsServed before w
kept-IsServed safe i here = (safe, i)
kept-IsServed safe i (next reached st) =
    let (safe', i') = kept-IsServed safe i reached in
    (Step-IsSafe st safe', Step-IsServed st safe' i')

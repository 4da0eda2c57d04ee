-- ===== src/Epp/Deadline.antt =====
-- When a call ends, and what its task may still do then.
use ngx_inference.Prelude.{
  ℕ, zero, suc, ◌+◌, ◌*◌, ◌≤◌, ◌<◌, ◌≡◌, ◌≢◌, refl, true, false, ge_nat, arith, if◌then◌else◌, ◌⊎◌,
  inl, inr, Bool-cases,
}
use ngx_inference.Nginx.{Request}
use ngx_inference.Epp.Context.{ResultWatcher, is_timed_out}
use ngx_inference.Epp.Failure.{Pool, TaskResult, handle_epp_failure, gateway_time_out}
use ngx_inference.Epp.Timer.{
  live, empty, running, sent, World, is_live, timer_interval_ms, fire, task_send, task_write, start,
}
use ngx_inference.Epp.Race.{expires, passes, sends, writes, Reach, here, next, IsSafe, fire-IsSafe}

-- Ten milliseconds pass, and the timer expires if it is set.
unfoldable pub round : World → World
round w = let w' = record w { now = w.now + timer_interval_ms } in if w'.armed then fire w' else w'

unfoldable pub rounds : ℕ → World → World
rounds zero w = w
rounds (suc n) w = rounds n (round w)

pub later-IsSafe :
    {before : ℕ} {w : World}
    → IsSafe before w
    → IsSafe before (record w { now = w.now + timer_interval_ms })
later-IsSafe s = ground arith

pub round-IsSafe : (before : ℕ) (w : World) → IsSafe before w → IsSafe before (round w)
unfolding round
round-IsSafe before w s = elim (Bool-cases w.armed) [
  | inl on ↦
      ground (
        arith,
        fire-IsSafe before (record w { now = w.now + timer_interval_ms }) on (later-IsSafe s),
      )
  | inr off ↦ ground (arith, later-IsSafe s)
]

pub round_dead :
    (before : ℕ) (w : World)
    → IsSafe before w
    → is_live w.data_pointer ≡ false
    → is_live (round w).data_pointer ≡ false
unfolding round
round_dead before w s h = ground arith

-- A round ends a call, or leaves it waiting within its timeout.
pub round_live :
    (before : ℕ) (x : ResultWatcher) (w : World)
    → IsSafe before w
    → w.data_pointer ≡ live x
    → (is_live (round w).data_pointer ≡ false)
      ⊎ (((round w).data_pointer ≡ live x)
          × ((round w).now ≡ w.now + timer_interval_ms)
          × ((round w).now ≤ x.start_time_ms + x.ctx.timeout_ms))
unfolding round fire is_timed_out
round_live before x w s e = grind (arith, e)

pub rounds_dead :
    (before n : ℕ) (w : World)
    → IsSafe before w
    → is_live w.data_pointer ≡ false
    → is_live (rounds n w).data_pointer ≡ false
unfolding rounds
rounds_dead before zero w s h = h
rounds_dead before (suc n) w s h =
    rounds_dead before n (round w) (round-IsSafe before w s) (round_dead before w s h)

pub rounds_live :
    (before n : ℕ) (x : ResultWatcher) (w : World)
    → IsSafe before w
    → w.data_pointer ≡ live x
    → w.now ≤ x.start_time_ms + x.ctx.timeout_ms
    → x.start_time_ms + x.ctx.timeout_ms < w.now + timer_interval_ms * n
    → is_live (rounds n w).data_pointer ≡ false
unfolding rounds
rounds_live before zero x w s e early late = absurd (omega arith)
rounds_live before (suc n) x w s e early late = elim (round_live before x w s e) [
  | inl over ↦ rounds_dead before n (round w) (round-IsSafe before w s) over
  | inr (same, time, within) ↦
      rounds_live before n x (round w) (round-IsSafe before w s) same within (omega arith)
]

-- The world at the first moment past the timeout, with nothing from the task.
abbrev pub overdue : Request → Pool → ResultWatcher → World
overdue r pool watcher =
    let w = start r pool watcher in record w { now = w.now + suc watcher.ctx.timeout_ms }

overdue_fires :
    (r : Request) (pool : Pool) (watcher : ResultWatcher)
    → ge_nat watcher.eventfd 0 ≡ true
    → r.connection ≡ true
    → r.count ≢ 0
    → let late = overdue r pool watcher in
      let ended = fire late in
      (is_timed_out watcher late.now ≡ true)
      × (late.channel ≡ empty)
      × (ended.request ≡ handle_epp_failure pool watcher.ctx gateway_time_out r)
      × (is_live ended.data_pointer ≡ false)
      × (ended.drops ≡ 1)
      × (ended.fd_open ≡ false)
      × (ended.task ≡ running)
      × (ended.channel ≡ empty)
      × (ended.stray_writes ≡ 0)
unfolding start fire is_timed_out
overdue_fires r pool watcher h connected counted = ground (arith, h, connected, counted)

task_outlives :
    (w : World) (result : TaskResult)
    → is_live w.data_pointer ≡ false
    → w.fd_open ≡ false
    → w.channel ≡ empty
    → w.stray_writes ≡ 0
    → let told = task_send result w in
      (told.task ≡ sent) × (told.channel ≡ empty) × ((task_write told).stray_writes ≡ 1)
unfolding task_send task_write
task_outlives w result dead shut silent none_yet = ground arith

-- Every call with a valid descriptor, a connection and a reference can come to this, by these steps:
-- the timeout passes with nothing from the task; the timer fires, answers the request with the failure
-- for 504 and frees the watcher, which closes the descriptor, while the task, which is not
-- cancelled, still runs; the task sends its result, which reaches no channel; and it then writes to
-- the closed number.
pub stray_write :
    (r : Request) (pool : Pool) (watcher : ResultWatcher) (result : TaskResult)
    → ge_nat watcher.eventfd 0 ≡ true
    → r.connection ≡ true
    → r.count ≢ 0
    → let late = overdue r pool watcher in
      let ended = fire late in
      let told = task_send result ended in
      let w = task_write told in
      Reach (start r pool watcher) w
      × (is_timed_out watcher late.now ≡ true)
      × (late.channel ≡ empty)
      × (ended.request ≡ handle_epp_failure pool watcher.ctx gateway_time_out r)
      × (is_live ended.data_pointer ≡ false)
      × (ended.drops ≡ 1)
      × (ended.fd_open ≡ false)
      × (ended.task ≡ running)
      × (told.channel ≡ empty)
      × (w.stray_writes ≡ 1)
unfolding start
stray_write r pool watcher result h connected counted =
    let late = overdue r pool watcher in
    let (past, quiet, answered, dead, freed, shut, task, silent, none_yet) =
      overdue_fires r pool watcher h connected counted in
    let (sent_it, lost, stray) = task_outlives (fire late) result dead shut silent none_yet in
    let ticked = next here (passes (start r pool watcher) (suc watcher.ctx.timeout_ms)) in
    let fired = next ticked (expires late refl) in
    let told = next fired (sends (fire late) result task) in
    (next told (writes _ sent_it), past, quiet, answered, dead, freed, shut, task, lost, stray)

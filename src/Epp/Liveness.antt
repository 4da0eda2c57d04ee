-- ===== src/Epp/Liveness.antt =====
-- That a call of the endpoint picker (src/epp/callbacks.rs) is answered in time.
use ngx_inference.Epp.Served.{IsServed, fire-IsServed, start-IsServed, kept-IsServed}
use ngx_inference.Prelude.{
  ℕ, zero, suc, ◌+◌, ◌*◌, ◌<◌, ◌≡◌, refl, true, false, ge_nat, ◌==◌, arith, ◌⊎◌, inl, inr,
  Bool-cases,
}
use ngx_inference.Nginx.{Request}
use ngx_inference.Epp.Context.{ResultWatcher, is_timed_out}
use ngx_inference.Epp.Failure.{Pool}
use mathlib.Core.Path.{subst}
use ngx_inference.Epp.Timer.{
  Pointer, null, dangling, live, World, is_live, timer_interval_ms, fire, task_send, task_write,
  task_panic, start,
}
use ngx_inference.Epp.Race.{
  Step, expires, passes, released, disconnected, sends, writes, panics, Reach, here, next, IsSafe,
  start-IsSafe, answers, live_watcher,
}
use ngx_inference.Epp.Deadline.{
  round, rounds, later-IsSafe, round-IsSafe, round_dead, rounds_dead, round_live, rounds_live,
}

round-IsServed :
    (before : ℕ) (w : World) → IsSafe before w → IsServed before w → IsServed before (round w)
unfolding round
round-IsServed before w s i = elim (Bool-cases w.armed) [
  | inl on ↦ ground (
    arith,
    fire-IsServed before (record w { now = w.now + timer_interval_ms }) on (later-IsSafe s)
        (record { served = i.served }),
  )
  | inr off ↦ record { served = ground (arith, off, i.served) }
]

rounds-IsServed :
    (before n : ℕ) (w : World)
    → IsSafe before w
    → IsServed before w
    → IsSafe before (rounds n w) × IsServed before (rounds n w)
unfolding rounds
rounds-IsServed before zero w s i = (s, i)
rounds-IsServed before (suc n) w s i =
    rounds-IsServed before n (round w) (round-IsSafe before w s) (round-IsServed before w s i)

-- Its watcher, if it lives, is the one that the call was started with.
abbrev Owns : ResultWatcher → Pointer → Type 0
Owns watcher null = Unit
Owns watcher dangling = Unit
Owns watcher (live x) = x ≡ watcher

fire-Owns :
    (watcher : ResultWatcher) (w : World)
    → Owns watcher w.data_pointer
    → Owns watcher (fire w).data_pointer
unfolding fire is_timed_out
fire-Owns watcher w o = grind arith

Step-Owns :
    (watcher : ResultWatcher) {w u : World}
    → Step w u
    → Owns watcher w.data_pointer
    → Owns watcher u.data_pointer
unfolding task_send task_write task_panic
Step-Owns watcher (expires w a) o = fire-Owns watcher w o
Step-Owns watcher (passes w ms) o = o
Step-Owns watcher (released w) o = o
Step-Owns watcher (disconnected w) o = o
Step-Owns watcher (sends w result t) o = ground arith
Step-Owns watcher (writes w t) o = ground arith
Step-Owns watcher (panics w t) o = ground arith

kept-Owns :
    (watcher : ResultWatcher) {s w : World}
    → Owns watcher s.data_pointer
    → Reach s w
    → Owns watcher w.data_pointer
kept-Owns watcher o here = o
kept-Owns watcher o (next reached st) = Step-Owns watcher st (kept-Owns watcher o reached)

rounds_gone :
    (before n : ℕ) (watcher : ResultWatcher) (w : World)
    → IsSafe before w
    → Owns watcher w.data_pointer
    → watcher.start_time_ms + watcher.ctx.timeout_ms < w.now + timer_interval_ms * suc n
    → is_live (rounds (suc n) w).data_pointer ≡ false
unfolding rounds
rounds_gone before n watcher w s o late = elim (Bool-cases (is_live w.data_pointer)) [
  | inr gone ↦ rounds_dead before n (round w) (round-IsSafe before w s) (round_dead before w s gone)
  | inl there ↦
      let (x, e) = live_watcher w.data_pointer there in
      let same_one : x ≡ watcher = subst (Owns watcher) e o in
      elim (round_live before x w s e) [
        | inl over ↦ rounds_dead before n (round w) (round-IsSafe before w s) over
        | inr (same, time, within) ↦
            rounds_live before n x (round w) (round-IsSafe before w s) same within
              (rw same_one (omega arith))
      ]
]

-- A request that is held is served; one that is not has lost its connection or its last reference.
served-cases :
    (before : ℕ) (w : World)
    → IsServed before w
    → is_live w.data_pointer ≡ false
    → (w.request.connection ≡ false)
      ⊎ ((w.request.count ≡ 0) ⊎ (answers w.request.calls ≡ suc before))
served-cases before w i gone = elim (Bool-cases w.request.connection) [
  | inr lost ↦ inl lost
  | inl c ↦ elim (Bool-cases (w.request.count == 0)) [
    | inl freed ↦ inr (inl (ground (arith, freed)))
    | inr k ↦ inr (inr (ground (arith, i.served c k, gone)))
  ]
]

-- From every state that a call with a valid descriptor reaches, in every order of its steps, rounds of
-- 10 ms, at least one and so many that they pass the deadline, end the call even if its task does
-- nothing more: its watcher is gone, and its request has lost its connection or its last
-- reference, or has been answered exactly once since the call began.
pub call_is_answered :
    (r : Request) (pool : Pool) (watcher : ResultWatcher) (w : World) (n : ℕ)
    → ge_nat watcher.eventfd 0 ≡ true
    → Reach (start r pool watcher) w
    → watcher.start_time_ms + watcher.ctx.timeout_ms < w.now + timer_interval_ms * suc n
    → let u = rounds (suc n) w in
      (is_live u.data_pointer ≡ false)
      × ((u.request.connection ≡ false)
          ⊎ ((u.request.count ≡ 0) ⊎ (answers u.request.calls ≡ suc (answers r.calls))))
unfolding start
call_is_answered r pool watcher w n h reached late =
    let (safe, served) =
      kept-IsServed (start-IsSafe r pool watcher h) (start-IsServed r pool watcher) reached in
    let (_, done) = rounds-IsServed _ (suc n) w safe served in
    let mine = kept-Owns watcher {s = start r pool watcher} refl reached in
    let gone = rounds_gone _ n watcher w safe mine late in
    (gone, served-cases _ (rounds (suc n) w) done gone)

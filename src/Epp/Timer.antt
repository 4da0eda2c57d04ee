-- ===== src/Epp/Timer.antt =====
-- The timer that polls for the result of one EPP call (src/epp/callbacks.rs), and what its task
-- does to the state they share (src/epp/async_processor.rs).
use ngx_inference.Prelude.{ℕ, ◌+◌, Bool, true, false, ge_nat, ◌==◌, if◌then◌else◌}
use ngx_inference.Nginx.{Request}
use ngx_inference.Epp.Context.{ResultWatcher, is_timed_out}
use ngx_inference.Epp.Failure.{
  Pool, handle_epp_failure, process_epp_result, TaskResult, bad_gateway, gateway_time_out,
}

-- `ev->data`: null, the watcher, or a watcher that has been freed.
pub data Pointer : Type 0 where
  null dangling : Pointer
  live : ResultWatcher → Pointer

-- The oneshot channel: nothing sent, a result, or the sender dropped.
pub data Oneshot : Type 0 where
  empty closed_channel : Oneshot
  ready : TaskResult → Oneshot

pub data TaskState : Type 0 where
  running sent done : TaskState

-- One call: its request, its timer event, its channel, its eventfd and its task.
pub record World : Type 0 where
  pub request : Request
  pub pool : Pool
  pub data_pointer : Pointer  -- ev->data
  pub handler_set : Bool  -- ev->handler is not null
  pub armed : Bool  -- the event is in nginx's timer tree
  pub channel : Oneshot
  pub fd_open : Bool
  pub fd_count : ℕ  -- the counter of the eventfd
  pub task : TaskState
  pub now : ℕ
  pub drops : ℕ  -- how often the watcher was freed
  pub stray_writes : ℕ  -- writes of the task to the descriptor after it was closed
  pub idle_deletes : ℕ  -- ngx_del_timer on an event that is not in the tree
  pub faults : ℕ  -- uses of the watcher after it was freed

abbrev pub timer_interval_ms : ℕ
timer_interval_ms = 10

-- `ngx_add_timer` and `ngx_del_timer`. nginx takes an event out of its tree before it calls the
-- handler.
abbrev pub add_timer : World → World
add_timer w = record w { armed = true }

abbrev pub del_timer : World → World
del_timer w =
    if w.armed then record w { armed = false } else record w { idle_deletes = w.idle_deletes + 1 }

-- `Box::from_raw` and the drop of the watcher, which closes its descriptor.
abbrev pub drop_watcher : ResultWatcher → World → World
drop_watcher watcher w =
    let w' = record w { drops = w.drops + 1 } in
    if ge_nat watcher.eventfd 0 then record w' { fd_open = false } else w'

-- The branches that delete the timer and free the watcher; the event keeps its pointer.
abbrev pub cleanup : ResultWatcher → World → World
cleanup watcher w = record (drop_watcher watcher (del_timer w)) { data_pointer = dangling }

-- `libc::read` on the descriptor, which empties its counter.
abbrev pub read_eventfd : World → World
read_eventfd w = record w { fd_count = 0 }

-- `match watcher.receiver.try_recv()`.
unfoldable pub receive : ResultWatcher → World → World
receive watcher w = elim w.channel [
  | ready result ↦
      let w' = drop_watcher watcher (record w { handler_set = false; data_pointer = null }) in
      record w' { request = process_epp_result w.pool watcher.ctx result w.request }
  | empty ↦ add_timer w
  | closed_channel ↦
      let w' = cleanup watcher w in
      record w' { request = handle_epp_failure w.pool watcher.ctx bad_gateway w.request }
]

-- The callback once the request is known to be there.
unfoldable pub poll : ResultWatcher → World → World
poll watcher w =
    let w1 = read_eventfd w in
    if is_timed_out watcher w1.now
    then (let w2 = cleanup watcher w1 in
        record w2 { request = handle_epp_failure w.pool watcher.ctx gateway_time_out w.request })
    else receive watcher w1

-- `check_epp_result`. A freed watcher that is used is counted as a fault.
unfoldable pub check_epp_result : World → World
unfolding poll receive
check_epp_result w = elim w.data_pointer [
  | null ↦ w
  | dangling ↦ record w { faults = w.faults + 1 }
  | live watcher ↦
      if w.request.connection
      then (if w.request.count == 0 then cleanup watcher w else poll watcher w)
      else cleanup watcher w
]

-- nginx runs the handler of an event that has expired.
unfoldable pub fire : World → World
unfolding check_epp_result
fire w = let w' = record w { armed = false } in if w.handler_set then check_epp_result w' else w'

abbrev pub is_live : Pointer → Bool
is_live null = false
is_live dangling = false
is_live (live watcher) = true

-- `sender.send(result)`: lost when the receiver is gone.
unfoldable pub task_send : TaskResult → World → World
task_send result w =
    let w' = record w { task = sent } in
    if is_live w.data_pointer then record w' { channel = ready result } else w'

-- The write of the task to the descriptor, whether it is open or not.
unfoldable pub task_write : World → World
task_write w =
    let w' = record w { task = done } in
    if w.fd_open
    then record w' { fd_count = w.fd_count + 1 }
    else record w' { stray_writes = w.stray_writes + 1 }

-- A task that panics drops its sender, and writes nothing.
unfoldable pub task_panic : World → World
task_panic w =
    let w' = record w { task = done } in
    if is_live w.data_pointer then record w' { channel = closed_channel } else w'

-- `setup_result_timer` and the spawn, for a request whose connection and event there are.
unfoldable pub start : Request → Pool → ResultWatcher → World
start r pool watcher = record {
  request = r;
  pool = pool;
  data_pointer = live watcher;
  handler_set = true;
  armed = true;
  channel = empty;
  fd_open = true;
  fd_count = 0;
  task = running;
  now = watcher.start_time_ms;
  drops = 0;
  stray_writes = 0;
  idle_deletes = 0;
  faults = 0;
}

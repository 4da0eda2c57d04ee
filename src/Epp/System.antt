-- ===== src/Epp/System.antt =====
-- One EPP call with its own task (src/epp/async_processor.rs): what the task sends is what
-- `process_epp_async` returns.
use ngx_inference.Prelude.{◌≡◌, sym, true, ge_nat, if_both}
use mathlib.Core.Path.{subst}
use ngx_inference.Text.{Bytes}
use ngx_inference.Nginx.{Request}
use ngx_inference.Grpc.Channel.{Tonic}
use ngx_inference.Grpc.Stream.{finished}
use ngx_inference.Epp.Context.{AsyncEppContext, ResultWatcher}
use ngx_inference.Epp.Failure.{Pool, TaskResult, upstream}
use ngx_inference.Epp.Task.{process_epp_async}
use ngx_inference.Epp.Timer.{
  Oneshot, empty, closed_channel, ready, World, is_live, task_send, task_write, task_panic, start,
}
use ngx_inference.Epp.Race.{
  Step, expires, passes, released, disconnected, sends, writes, panics, Reach, here, next,
}
use ngx_inference.Epp.Outcome.{
  Outcome, waiting, abandoned, passed, chosen, defaulted, refused, SpecReach,
}
use ngx_inference.Epp.Ends.{Brought}
use ngx_inference.Epp.Firing.{fire-channel}
use ngx_inference.Epp.Refine.{Simulates, Reach-Simulates}

module _ (tonic : Tonic) (ctx : AsyncEppContext) (body : Bytes) where
  abbrev Returns : TaskResult → Type 0
  Returns result = process_epp_async tonic ctx body ≡ finished result

  -- A step in which the task, if it sends, sends what it has computed.
  abbrev pub IsHonest : {w u : World} → Step w u → Type 0
  IsHonest (expires w a) = Unit
  IsHonest (passes w ms) = Unit
  IsHonest (released w) = Unit
  IsHonest (disconnected w) = Unit
  IsHonest (sends w result t) = Returns result
  IsHonest (writes w t) = Unit
  IsHonest (panics w t) = Unit

  pub data Runs (s : World) : World → Type 0 where
    begins : Runs s s
    moves : {t u : World} → Runs s t → (st : Step t u) → IsHonest st → Runs s u

  -- A result in the channel is the task's own.
  abbrev IsOwn : Oneshot → Type 0
  IsOwn empty = Unit
  IsOwn closed_channel = Unit
  IsOwn (ready result) = Returns result

  task_send-IsOwn :
      (w : World) (result : TaskResult)
      → Returns result
      → IsOwn w.channel
      → IsOwn (task_send result w).channel
  unfolding task_send
  task_send-IsOwn w result returned own =
      if_both (λ (u : World). IsOwn u.channel) (is_live w.data_pointer) _ _ (λ there. returned)
        (λ gone. own)

  task_panic-IsOwn : (w : World) → IsOwn w.channel → IsOwn (task_panic w).channel
  unfolding task_panic
  task_panic-IsOwn w own =
      if_both (λ (u : World). IsOwn u.channel) (is_live w.data_pointer) _ _ (λ there. tt)
        (λ gone. own)

  task_write-IsOwn : (w : World) → IsOwn w.channel → IsOwn (task_write w).channel
  unfolding task_write
  task_write-IsOwn w own =
      if_both (λ (u : World). IsOwn u.channel) w.fd_open _ _ (λ there. own) (λ gone. own)

  step-IsOwn : {w u : World} (st : Step w u) → IsHonest st → IsOwn w.channel → IsOwn u.channel
  step-IsOwn (expires w a) h own = subst IsOwn (sym (fire-channel w)) own
  step-IsOwn (passes w ms) h own = own
  step-IsOwn (released w) h own = own
  step-IsOwn (disconnected w) h own = own
  step-IsOwn (sends w result t) h own = task_send-IsOwn w result h own
  step-IsOwn (writes w t) h own = task_write-IsOwn w own
  step-IsOwn (panics w t) h own = task_panic-IsOwn w own

  Runs-IsOwn : {s w : World} → IsOwn s.channel → Runs s w → IsOwn w.channel
  Runs-IsOwn own begins = own
  Runs-IsOwn own (moves run st h) = step-IsOwn st h (Runs-IsOwn own run)

  Runs-Reach : {s w : World} → Runs s w → Reach s w
  Runs-Reach begins = here
  Runs-Reach (moves run st h) = next (Runs-Reach run) st

  -- An upstream that was chosen is the one that the task has found.
  abbrev pub IsJustified : Outcome → Type 0
  IsJustified (chosen u) = Returns (upstream u)
  IsJustified _ = Unit

  justified : (o : Outcome) (channel : Oneshot) → Brought o channel → IsOwn channel → IsJustified o
  justified waiting channel b own = tt
  justified abandoned channel b own = tt
  justified passed channel b own = tt
  justified (chosen u) channel b own = subst IsOwn b own
  justified (defaulted d) channel b own = tt
  justified (refused code) channel b own = tt

-- The timer, the channel and the task refine the contract of a call: in every order of their
-- steps, from the start of a call with a valid descriptor, the state that is reached implements an
-- outcome that the contract reaches. Its request has the headers, the calls and the status of that
-- outcome; its watcher lives, with the context of the call, exactly while the outcome is waiting; and
-- an upstream that was chosen is what `process_epp_async` returns for the call, when the task sends
-- nothing else.
pub Runs-Simulates :
    (tonic : Tonic) (body : Bytes) (r : Request) (pool : Pool) (watcher : ResultWatcher) (w : World)
    → ge_nat watcher.eventfd 0 ≡ true
    → Runs tonic watcher.ctx body (start r pool watcher) w
    → (o : Outcome) × SpecReach watcher.ctx o
      × Simulates watcher.ctx r o w
      × IsJustified tonic watcher.ctx body o
unfolding start
Runs-Simulates tonic body r pool watcher w valid run =
    let (o, path, i) =
      Reach-Simulates r pool watcher w valid (Runs-Reach tonic watcher.ctx body run) in
    (
      o,
      path,
      i,
      justified tonic watcher.ctx body o w.channel i.brought
          (Runs-IsOwn tonic watcher.ctx body {s = start r pool watcher} tt run),
    )

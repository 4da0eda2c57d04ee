-- ===== src/Access/Shared.antt =====
-- A request and all the calls that are made for it: the access handler (src/lib.rs) and the callbacks of
-- the body (src/epp/callbacks.rs, src/modules/bbr.rs) may run at any time, and the timers and the
-- tasks of the calls take their steps in any order over the request that they share.
pub mod Safety
pub mod Overlap
mod Tests
use ngx_inference.Prelude.{ℕ, zero, suc, ◌+◌, ◌-◌, ◌≡◌, List, [], ◌∷◌, ◌++◌, Option, none, some}
use ngx_inference.Config.{ModuleConfig}
use ngx_inference.Nginx.{Request, Nginx}
use ngx_inference.Model.{Json}
use ngx_inference.Bbr.{body_read_handler}
use ngx_inference.Epp.Start.{Host, Job, no_call, body_read_done}
use ngx_inference.Epp.Timer.{World}
use ngx_inference.Epp.Race
use ngx_inference.Epp.Race.{answers, live_count}
use ngx_inference.Access.{inference_access_handler}

-- The request of a call's own state is that of the last step it took; `with_request` brings it up to
-- date. `own` counts the answers that the handler and the callback themselves have given.
pub record Shared : Type 0 where
  pub request : Request
  pub calls : List World
  pub own : ℕ

abbrev pub with_request : Request → World → World
with_request r w = record w { request = r }

-- A request for which nothing has been done.
abbrev pub alone : Request → Shared
alone r = record { request = r; calls = []; own = 0 }

abbrev pub and_call : Option World → List World → List World
and_call none ws = ws
and_call (some w) ws = w ∷ ws

-- What the handler or the callback leaves, with the call that it has started.
unfoldable pub take_job : Job → Shared → Shared
take_job job s = record {
  request = job.request;
  calls = and_call job.world s.calls;
  own = s.own + (answers job.request.calls - answers s.request.calls);
}

-- How many of the calls are out.
abbrev pub out : List World → ℕ
out [] = 0
out (w ∷ ws) = live_count w.data_pointer + out ws

module _ (ngx : Nginx) (json : Json) (hosts : ℕ → Host) (conf : ModuleConfig) where
  -- The n-th answer of nginx and the kernel is that of `hosts n`.
  unfoldable pub pass : ℕ → Shared → Shared
  pass n s = take_job (inference_access_handler ngx json (hosts n) (some conf) s.request).0 s

  unfoldable pub callback : ℕ → Shared → Shared
  callback n s = take_job (body_read_done (hosts n) (some conf) (no_call s.request)) s

  -- The callback of the first stage, which starts no call.
  unfoldable pub bbr_callback : Shared → Shared
  bbr_callback s = take_job (no_call (body_read_handler ngx json (some conf) s.request)) s

  -- A pass, a callback, or a step of one of the calls, which may also be nginx's with the request.
  pub data Step : Shared → Shared → Type 0 where
    passes : (s : Shared) (n : ℕ) → Step s (pass n s)
    calls_back : (s : Shared) (n : ℕ) → Step s (callback n s)
    bbr_calls_back : (s : Shared) → Step s (bbr_callback s)
    moves :
        (s : Shared) (before after : List World) (w u : World)
        → s.calls ≡ before ++ (w ∷ after)
        → Race.Step (with_request s.request w) u
        → Step s (record s { request = u.request; calls = before ++ (u ∷ after) })

  pub data Reach (s : Shared) : Shared → Type 0 where
    here : Reach s s
    next : {t u : Shared} → Reach s t → Step t u → Reach s u

-- ===== src/Epp/Refine.antt =====
-- The timer, the channel and the task of one EPP call (src/epp/callbacks.rs,
-- src/epp/async_processor.rs) against the contract of `Epp.Outcome`.
use ngx_inference.Prelude.{ℕ, ◌≡◌, ◌⊎◌, inl, inr, refl, sym, ◌∙◌, true, false, arith, ge_nat}
use ngx_inference.Nginx.{Request}
use ngx_inference.Epp.Context.{AsyncEppContext, ResultWatcher}
use ngx_inference.Epp.Failure.{Pool}
use ngx_inference.Epp.Timer.{
  Pointer, live, World, is_live, fire, task_send, task_write, task_panic, start,
}
use ngx_inference.Epp.Race.{
  Step, expires, passes, released, disconnected, sends, writes, panics, Reach, here, next, IsSafe,
  Step-IsSafe, start-IsSafe,
}
use ngx_inference.Epp.Outcome.{
  Outcome, waiting, abandoned, passed, chosen, defaulted, refused, MayEnd, SpecStep, ends,
  SpecReach, begun, later,
}
use mathlib.Core.Path.{subst}
use ngx_inference.Epp.Ends.{Looks, Brought, Ended, failure_ends, result_ends}
use ngx_inference.Epp.Firing.{Firing, polls, gives_up, fails, hands_over, fire-channel, fire-Firing}

-- The watcher lives, with the context of the call, exactly while the call is out.
abbrev pub Watches : AsyncEppContext → Outcome → Pointer → Type 0
Watches ctx waiting p = (x : ResultWatcher) × (p ≡ live x) × (x.ctx ≡ ctx)
Watches ctx _ p = is_live p ≡ false

-- The state `w` implements the outcome `o` of a call with the context for the request `r`.
pub record Simulates (ctx : AsyncEppContext) (r : Request) (o : Outcome) (w : World) : Type 0 where
  pub looks : Looks ctx r o w.request
  pub watches : Watches ctx o w.data_pointer
  pub brought : Brought o w.channel

-- Where one step of the implementation leads: nowhere in the contract, or to one of its ends.
abbrev Leads : AsyncEppContext → Request → Outcome → World → Type 0
Leads ctx r o w = (p : Outcome) × ((o ≡ p) ⊎ SpecStep ctx o p) × Simulates ctx r p w

ended_gone :
    (ctx : AsyncEppContext) (o : Outcome) (p : Pointer)
    → MayEnd ctx o
    → is_live p ≡ false
    → Watches ctx o p
ended_gone ctx waiting p m h = elim m [ ]
ended_gone ctx abandoned p m h = h
ended_gone ctx passed p m h = h
ended_gone ctx (chosen u) p m h = h
ended_gone ctx (defaulted d) p m h = h
ended_gone ctx (refused code) p m h = h

-- An end of the call, once the watcher is gone.
Leads-to_end :
    (ctx : AsyncEppContext) (r q : Request) (w : World)
    → Ended ctx r w.channel q
    → w.request ≡ q
    → is_live w.data_pointer ≡ false
    → Leads ctx r waiting w
Leads-to_end ctx r q w (o, m, b, l) e gone = (
  o,
  inr (ends m),
  record { looks = rw e l; watches = ended_gone ctx o w.data_pointer m gone; brought = b },
)

Looks-eq :
    (ctx : AsyncEppContext) (r : Request) (o : Outcome) (p q : Request)
    → q ≡ p
    → Looks ctx r o p
    → Looks ctx r o q
Looks-eq ctx r o p q e l = rw e l

Firing-Leads :
    (x : ResultWatcher) (r : Request) (w u : World)
    → u.channel ≡ w.channel
    → Looks x.ctx r waiting w.request
    → Firing x w u
    → Leads x.ctx r waiting u
Firing-Leads x r w u same l (polls e p) = (
  waiting,
  inl refl,
  record {
    looks = Looks-eq x.ctx r waiting w.request u.request e l;
    watches = (x, p, refl);
    brought = tt;
  },
)
Firing-Leads x r w u same l (gives_up e gone) =
    Leads-to_end x.ctx r w.request u
      (abandoned, tt, tt, record { headers = l.headers; calls = l.calls; status = l.status }) e gone
Firing-Leads x r w u same l (fails code allowed e gone) =
    Leads-to_end x.ctx r _ u (failure_ends w.pool x.ctx code r w.request u.channel allowed l) e gone
Firing-Leads x r w u same l (hands_over result there e gone) =
    Leads-to_end x.ctx r _ u (rw (same ∙ there) (result_ends w.pool x.ctx r w.request result l)) e
      gone

expired-Leads :
    (ctx : AsyncEppContext) (x : ResultWatcher) (r : Request) (w : World)
    → x.ctx ≡ ctx
    → w.data_pointer ≡ live x
    → w.handler_set ≡ true
    → Looks ctx r waiting w.request
    → Leads ctx r waiting (fire w)
expired-Leads ctx x r w c e h l =
    subst (λ k. Leads k r waiting (fire w)) c
      (Firing-Leads x r w (fire w) (fire-channel w)
        (subst (λ k. Looks k r waiting w.request) (sym c) l) (fire-Firing x w e h))

-- After its end a call has no timer, so it is out whenever the timer expires.
expires-Leads :
    (ctx : AsyncEppContext) (before : ℕ) (r : Request) (o : Outcome) (w : World)
    → IsSafe before w
    → w.armed ≡ true
    → Simulates ctx r o w
    → Leads ctx r o (fire w)
expires-Leads ctx before r waiting w s a i =
    let (x, e, c) = i.watches in expired-Leads ctx x r w c e (s.handler (ground (arith, e))) i.looks
expires-Leads ctx before r abandoned w s a i = absurd (ground (arith, s.armed_live, i.watches))
expires-Leads ctx before r passed w s a i = absurd (ground (arith, s.armed_live, i.watches))
expires-Leads ctx before r (chosen u) w s a i = absurd (ground (arith, s.armed_live, i.watches))
expires-Leads ctx before r (defaulted d) w s a i = absurd (ground (arith, s.armed_live, i.watches))
expires-Leads ctx before r (refused code) w s a i = absurd (ground (arith, s.armed_live, i.watches))

Brought-kept :
    (ctx : AsyncEppContext) (o : Outcome) (w u : World)
    → Watches ctx o w.data_pointer
    → (is_live w.data_pointer ≡ false → u.channel ≡ w.channel)
    → Brought o w.channel
    → Brought o u.channel
Brought-kept ctx waiting w u k ch b = tt
Brought-kept ctx abandoned w u k ch b = tt
Brought-kept ctx passed w u k ch b = tt
Brought-kept ctx (chosen v) w u k ch b = ch k ∙ b
Brought-kept ctx (defaulted d) w u k ch b = tt
Brought-kept ctx (refused code) w u k ch b = tt

-- A step that leaves the request's looks, the watcher and what was brought alone.
stays :
    (ctx : AsyncEppContext) (r : Request) (o : Outcome) (w u : World)
    → u.request.headers_in ≡ w.request.headers_in
    → u.request.calls ≡ w.request.calls
    → u.request.status ≡ w.request.status
    → u.data_pointer ≡ w.data_pointer
    → (is_live w.data_pointer ≡ false → u.channel ≡ w.channel)
    → Simulates ctx r o w
    → Leads ctx r o u
stays ctx r o w u hs cs st p ch i = (
  o,
  inl refl,
  record {
    looks = record {
      headers = hs ∙ i.looks.headers;
      calls = cs ∙ i.looks.calls;
      status = st ∙ i.looks.status;
    };
    watches = rw p i.watches;
    brought = Brought-kept ctx o w u i.watches ch i.brought;
  },
)

Step-Simulates :
    {ctx : AsyncEppContext} {before : ℕ} {r : Request} {o : Outcome} {w u : World}
    → IsSafe before w
    → Simulates ctx r o w
    → Step w u
    → Leads ctx r o u
unfolding task_send task_write task_panic
Step-Simulates s i (expires w a) = expires-Leads _ _ _ _ w s a i
Step-Simulates s i (passes w ms) = stays _ _ _ w _ refl refl refl refl (λ d. refl) i
Step-Simulates s i (released w) = stays _ _ _ w _ refl refl refl refl (λ d. refl) i
Step-Simulates s i (disconnected w) = stays _ _ _ w _ refl refl refl refl (λ d. refl) i
Step-Simulates s i (sends w result t) =
    stays _ _ _ w _ (ground arith) (ground arith) (ground arith) (ground arith) (λ d. ground arith)
      i
Step-Simulates s i (writes w t) =
    stays _ _ _ w _ (ground arith) (ground arith) (ground arith) (ground arith) (λ d. ground arith)
      i
Step-Simulates s i (panics w t) =
    stays _ _ _ w _ (ground arith) (ground arith) (ground arith) (ground arith) (λ d. ground arith)
      i

start-Simulates :
    (r : Request) (pool : Pool) (watcher : ResultWatcher)
    → Simulates watcher.ctx r waiting (start r pool watcher)
unfolding start
start-Simulates r pool watcher = record {
  looks = record { headers = refl; calls = refl; status = refl };
  watches = (watcher, refl, refl);
  brought = tt;
}

-- A path of the implementation, followed in the contract.
abbrev Follows : AsyncEppContext → Request → World → Type 0
Follows ctx r w = (o : Outcome) × SpecReach ctx o × Simulates ctx r o w

follow :
    (ctx : AsyncEppContext) (r : Request) (o : Outcome) (w : World)
    → SpecReach ctx o
    → Leads ctx r o w
    → Follows ctx r w
follow ctx r o w path (p, inl same, i) = (p, subst (SpecReach ctx) same path, i)
follow ctx r o w path (p, inr step, i) = (p, later path step, i)

kept-Simulates :
    {ctx : AsyncEppContext} {before : ℕ} {r : Request} {s w : World}
    → IsSafe before s
    → Simulates ctx r waiting s
    → Reach s w
    → IsSafe before w × Follows ctx r w
kept-Simulates safe i here = (safe, (waiting, begun, i))
kept-Simulates {ctx = ctx} {r = r} safe i (next {u = u} reached st) =
    let (safe', (o, path, i')) = kept-Simulates safe i reached in
    (Step-IsSafe st safe', follow ctx r o u path (Step-Simulates safe' i' st))

-- Every state that is reached implements an outcome that the contract reaches.
pub Reach-Simulates :
    (r : Request) (pool : Pool) (watcher : ResultWatcher) (w : World)
    → ge_nat watcher.eventfd 0 ≡ true
    → Reach (start r pool watcher) w
    → (o : Outcome) × SpecReach watcher.ctx o × Simulates watcher.ctx r o w
Reach-Simulates r pool watcher w h reached =
    (kept-Simulates (start-IsSafe r pool watcher h) (start-Simulates r pool watcher) reached).1

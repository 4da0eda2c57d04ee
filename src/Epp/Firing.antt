-- ===== src/Epp/Firing.antt =====
-- The ways in which the timer of a call fires (check_epp_result of src/epp/callbacks.rs).
use ngx_inference.Prelude.{ℕ, ◌≡◌, ◌⊎◌, inl, inr, refl, true, false, arith, Bool-cases, ◌==◌}
use ngx_inference.Epp.Context.{ResultWatcher, is_timed_out}
use ngx_inference.Epp.Failure.{
  handle_epp_failure, process_epp_result, TaskResult, bad_gateway, gateway_time_out,
}
use ngx_inference.Epp.Timer.{live, Oneshot, empty, closed_channel, ready, World, is_live, fire}

-- The ways in which the timer of a live watcher can fire: the call stays out, is given up with its
-- request, fails, or hands over a result.
pub data Firing (x : ResultWatcher) (w u : World) : Type 0 where
  polls : u.request ≡ w.request → u.data_pointer ≡ live x → Firing x w u
  gives_up : u.request ≡ w.request → is_live u.data_pointer ≡ false → Firing x w u
  fails :
      (code : ℕ)
      → (code ≡ bad_gateway) ⊎ (code ≡ gateway_time_out)
      → u.request ≡ handle_epp_failure w.pool x.ctx code w.request
      → is_live u.data_pointer ≡ false
      → Firing x w u
  hands_over :
      (result : TaskResult)
      → w.channel ≡ ready result
      → u.request ≡ process_epp_result w.pool x.ctx result w.request
      → is_live u.data_pointer ≡ false
      → Firing x w u

pub fire-channel : (w : World) → (fire w).channel ≡ w.channel
unfolding fire is_timed_out
fire-channel w = grind arith

Oneshot-cases :
    (c : Oneshot)
    → (c ≡ empty) ⊎ ((c ≡ closed_channel) ⊎ ((result : TaskResult) × (c ≡ ready result)))
Oneshot-cases empty = inl refl
Oneshot-cases closed_channel = inr (inl refl)
Oneshot-cases (ready result) = inr (inr (result, refl))

module _ (x : ResultWatcher) (w : World) (e : w.data_pointer ≡ live x)
    (h : w.handler_set ≡ true) where
  fire_there :
      w.request.connection ≡ true
      → (w.request.count == 0) ≡ false
      → is_timed_out x w.now ≡ false
      → Firing x w (fire w)
  unfolding fire
  fire_there c n early = elim (Oneshot-cases w.channel) [
    | inl quiet ↦
        polls (ground (arith, e, h, c, n, early, quiet)) (ground (arith, e, h, c, n, early, quiet))
    | inr (inl shut) ↦
        fails bad_gateway (inl refl) (ground (arith, e, h, c, n, early, shut))
          (ground (arith, e, h, c, n, early, shut))
    | inr (inr (result, there)) ↦
        hands_over result there (ground (arith, e, h, c, n, early, there))
          (ground (arith, e, h, c, n, early, there))
  ]

  pub fire-Firing : Firing x w (fire w)
  unfolding fire
  fire-Firing = elim (Bool-cases w.request.connection) [
    | inr gone ↦ gives_up (ground (arith, e, h, gone)) (ground (arith, e, h, gone))
    | inl c ↦ elim (Bool-cases (w.request.count == 0)) [
      | inl freed ↦ gives_up (ground (arith, e, h, c, freed)) (ground (arith, e, h, c, freed))
      | inr n ↦ elim (Bool-cases (is_timed_out x w.now)) [
        | inl late ↦
            fails gateway_time_out (inr refl) (ground (arith, e, h, c, n, late))
              (ground (arith, e, h, c, n, late))
        | inr early ↦ fire_there c n early
      ]
    ]
  ]

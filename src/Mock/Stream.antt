-- ===== src/Mock/Stream.antt =====
-- What a client reads from the mock in its EPP role (bin/extproc_mock.rs).
use ngx_inference.Mock.Received.{
  received_messages, received_ending, no_failure, upstream_key, received-append, send_taken,
  offers_added, headers_resp-offers, body_resp-offers, first-append-some,
}
use ngx_inference.Prelude.{
  ℕ, suc, ◌<◌, ◌≡◌, ◌∙◌, refl, ap, true, false, List, [], ◌∷◌, ◌++◌, Option, some, arith, length,
  inl, inr, Bool-cases,
}
use mathlib.Core.List.{append-nil}
use ngx_inference.Text.{Bytes, bytes, bytes_eq, is_empty}
use ngx_inference.Model.{Json}
use ngx_inference.Grpc.Mutation.{all_offered, set_headers_of, first}
use ngx_inference.Grpc.Channel.{closed}
use ngx_inference.Grpc.Stream.{stream_offers}
use ngx_inference.Mock.{
  ExtProcMock, HttpBody, Inbound, request_headers, request_body, other, failure, reply, Task, send,
  headers_resp, body_resp, on_headers, on_body, on_inbound, after_loop, run, process, detect,
}

-- What a client has been offered so far under the header's name.
abbrev offers_in : {Status : Type 0} → Task Status → List Bytes
offers_in t = stream_offers upstream_key (received_messages t.out)

-- The task, for a client that takes more than `n` further replies: nothing was offered before the
-- headers' reply, and the upstream first after it.
record IsOffering {Status : Type 0} (u : Bytes) (n : ℕ) (t : Task Status) : Type 0 where
  pub room : n < t.taken
  pub clean : received_ending t.out ≡ closed
  pub unsent : t.sent_headers_response ≡ false → offers_in t ≡ []
  pub done : t.sent_headers_response ≡ true → first (offers_in t) ≡ some u

module _ {Status : Type 0} (json : Json) (from_slice : Bytes → Option json.Value)
    (mock : ExtProcMock) (epp : bytes_eq mock.role (bytes "EPP") ≡ true)
    (chosen : is_empty mock.epp_upstream ≡ false) where
  offered_after_headers :
      (t : Task Status) (n : ℕ)
      → IsOffering mock.epp_upstream n t
      → first (offers_in t ++ (mock.epp_upstream ∷ [])) ≡ some mock.epp_upstream
  offered_after_headers t n i = elim (Bool-cases t.sent_headers_response) [
    | inl yet ↦ first-append-some (offers_in t) _ mock.epp_upstream (i.done yet)
    | inr not_yet ↦ rw (i.unsent not_yet) refl
  ]

  on_headers-IsOffering :
      (n : ℕ) (t : Task Status)
      → IsOffering mock.epp_upstream (suc n) t
      → let (t', go_on) = on_headers json from_slice mock t in
        (go_on ≡ true) × IsOffering mock.epp_upstream n t'
  unfolding on_headers
  on_headers-IsOffering n t i =
      let adds = offers_added (headers_resp mock) t.out i.clean in
      rw (epp, send_taken (reply (headers_resp mock)) t (omega (arith, i.room)))
        (
          refl,
          record {
            room = omega (arith, i.room);
            clean = (received-append t.out (headers_resp mock) i.clean).1;
            unsent = λ h. cc;
            done =
                λ h. rw (adds, headers_resp-offers mock chosen) (offered_after_headers t (suc n) i);
          },
        )

  on_body-IsOffering :
      (n : ℕ) (b : HttpBody) (t : Task Status)
      → IsOffering mock.epp_upstream (suc n) t
      → let (t', go_on) = on_body json from_slice mock b t in
        (go_on ≡ true) × IsOffering mock.epp_upstream n t'
  unfolding on_body
  on_body-IsOffering n b t i = elim (Bool-cases b.end_of_stream) [
    | inr more ↦ rw more (
      refl,
      record { room = omega (arith, i.room); clean = i.clean; unsent = i.unsent; done = i.done },
    )
    | inl last ↦
        let body_buf = t.body_buf ++ b.body in
        let model = detect json from_slice body_buf t.current_bbr_model in
        let t' = record t { body_buf = body_buf; current_bbr_model = model } in
        let adds = offers_added (body_resp mock model) t.out i.clean in
        let same : offers_in t ++ all_offered upstream_key (set_headers_of (body_resp mock model))
            ≡ offers_in t =
          rw (body_resp-offers mock model, append-nil) refl in
        rw (last, send_taken (reply (body_resp mock model)) t' (omega (arith, i.room)))
          (
            refl,
            record {
              room = omega (arith, i.room);
              clean = (received-append t.out (body_resp mock model) i.clean).1;
              unsent = λ h. adds ∙ same ∙ i.unsent h;
              done = λ h. ap first (adds ∙ same) ∙ i.done h;
            },
          )
  ]

  -- The client of a task that has ended was offered the upstream first, and its stream closes.
  abbrev Selects : Task Status → Type 0
  Selects t = (first (offers_in t) ≡ some mock.epp_upstream) × (received_ending t.out ≡ closed)

  after_loop_sends :
      (t : Task Status)
      → t.sent_headers_response ≡ false
      → after_loop json from_slice mock t ≡ (send (reply (headers_resp mock)) t).0
  unfolding after_loop
  after_loop_sends t unsent = ground (arith, unsent, epp)

  after_loop-Selects :
      (t : Task Status)
      → IsOffering mock.epp_upstream 0 t
      → Selects (after_loop json from_slice mock t)
  unfolding after_loop
  after_loop-Selects t i = elim (Bool-cases t.sent_headers_response) [
    | inl sent ↦ rw sent (i.done sent, i.clean)
    | inr unsent ↦
        let adds = offers_added (headers_resp mock) t.out i.clean in
        rw
          (
            after_loop_sends t unsent,
            send_taken (reply (headers_resp mock)) t (omega (arith, i.room)),
          )
          (
            rw (adds, headers_resp-offers mock chosen) (offered_after_headers t 0 i),
            (received-append t.out (headers_resp mock) i.clean).1,
          )
  ]

  run-Selects :
      (inbound : List (Inbound Status)) (t : Task Status)
      → no_failure inbound ≡ true
      → IsOffering mock.epp_upstream (length inbound) t
      → Selects (run json from_slice mock inbound t)
  unfolding run on_inbound
  run-Selects [] t ok_all i = after_loop-Selects t i
  run-Selects (request_headers m ∷ more) t ok_all i =
      let (go_on, i') = on_headers-IsOffering (length more) t i in
      rw go_on (run-Selects more _ ok_all i')
  run-Selects (request_body b ∷ more) t ok_all i =
      let (go_on, i') = on_body-IsOffering (length more) b t i in
      rw go_on (run-Selects more _ ok_all i')
  run-Selects (other ∷ more) t ok_all i =
      run-Selects more t ok_all
        (record { room = omega (arith, i.room); clean = i.clean; unsent = i.unsent; done = i.done })
  run-Selects (failure s ∷ more) t ok_all i = cc

  -- In the EPP role, with an upstream that is not empty: a client that closes its stream, whose messages
  -- of every kind and in every order arrive without a failure, and that takes a reply for
  -- each of them and one more, is offered the upstream before anything else under the
  -- header's name, by a reply to the headers or at the end, and then its stream closes.
  pub process_selects :
      (taken : ℕ) (inbound : List (Inbound Status))
      → no_failure inbound ≡ true
      → length inbound < taken
      → let items = process json from_slice mock taken inbound in
        (first (stream_offers upstream_key (received_messages items)) ≡ some mock.epp_upstream)
        × (received_ending items ≡ closed)
  unfolding process
  process_selects taken inbound ok_all room =
      run-Selects inbound _ ok_all
        (record { room = room; clean = refl; unsent = λ h. refl; done = λ h. cc })

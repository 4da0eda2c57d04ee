-- ===== src/Access/Retry.antt =====
-- Attempts of the second stage that fail in fail-open mode (src/epp/callbacks.rs): each resumes the
-- phases, and the access handler (src/lib.rs) runs again.
use ngx_inference.Prelude.{
  ℕ, zero, suc, ◌+◌, ◌≤◌, ◌≡◌, ◌≢◌, refl, sym, ◌∙◌, ap, Bool, true, false, [], ◌∷◌, Option, none,
  some, pos, arith,
}
use mathlib.Core.Path.{subst}
use ngx_inference.Text.{Bytes, to_ascii_lowercase}
use ngx_inference.Config.{ModuleConfig}
use ngx_inference.Nginx.{
  Request, RequestBody, Nginx, ngx_done, call, run_phases, clear_post_handler,
}
use ngx_inference.Model.{Json}
use ngx_inference.Nginx.Headers.{get_header_in}
use ngx_inference.Epp.Body.{extract_request_body}
use ngx_inference.Epp.Again.{failure_leaves}
use ngx_inference.Epp.Context.{
  AsyncEppContext, ResultWatcher, make_context, new_watcher, epp_header,
}
use ngx_inference.Epp.Delivery.{PeerAnswers, settle, no_choice_fails}
use ngx_inference.Epp.Failure.{bad_gateway}
use ngx_inference.Epp.Poll.{IsWaiting}
use ngx_inference.Epp.Race.{answers, answers-append}
use ngx_inference.Epp.Start.{Host}
use ngx_inference.Epp.Task.{process_epp_async}
use ngx_inference.Epp.Timer.{World, fire, start}
use ngx_inference.Grpc.Channel.{Tonic, Inbound, silent}
use ngx_inference.Grpc.Mutation.{first}
use ngx_inference.Grpc.Stream.{stream_offers}
use ngx_inference.Access.{inference_access_handler}
use ngx_inference.Access.Repeat.{CanCall, new_call, pass_calls}
use ngx_inference.Access.Routed.{after_pass}

-- A request that differs from another only in what a failure in fail-open mode changes.
pub record IsResumed (r q : Request) : Type 0 where
  pub headers : q.headers_in ≡ r.headers_in
  pub status : q.status ≡ r.status
  pub connection : q.connection ≡ r.connection
  pub count : q.count ≡ r.count
  pub body :
      (b : RequestBody)
      → r.request_body ≡ some b
      → (handler : Bool) × (q.request_body ≡ some (record b { post_handler = handler }))

CanCall-IsResumed :
    (host : Host) (conf : ModuleConfig) (endpoint : Bytes) (fd : ℕ) (r q : Request)
    → IsResumed r q
    → CanCall host conf endpoint fd r
    → CanCall host conf endpoint fd q
unfolding extract_request_body
CanCall-IsResumed host conf endpoint fd r q same c =
    let (handler, there) = same.body c.body c.there in
    record {
      content = c.content;
      total = c.total;
      body = record c.body { post_handler = handler };
      bbr_done = ground (arith, same.headers, c.bbr_done);
      epp_on = c.epp_on;
      chosen = c.chosen;
      unset = ap (λ hs. get_header_in hs (epp_header conf)) same.headers ∙ c.unset;
      fine = ground (arith, same.status, c.fine);
      connected = same.connection ∙ c.connected;
      there = there;
      complete = c.complete;
      descriptor = c.descriptor;
      event = c.event;
      readable = ground (arith, c.readable, c.there, there);
    }

module _ (ngx : Nginx) (json : Json) (hosts : ℕ → Host) (tonic : Tonic) (conf : ModuleConfig)
    (endpoint : Bytes) (body : Bytes) (ms : ℕ) where
  -- After a pass: when it has made a call, the end of its task and a firing, `ms` later.
  unfoldable pub serve : AsyncEppContext → Option World → Request → Request
  serve ctx none p = p
  serve ctx (some w) p =
      (fire (settle (process_epp_async tonic ctx body) (after_pass p ms w))).request

  -- One attempt: a pass and its call. The answer resumes the phases, and the next attempt begins with
  -- the request that is left.
  unfoldable pub attempt : Host → Request → Request
  attempt host r =
      let job = (inference_access_handler ngx json host (some conf) r).0 in
      serve (make_context conf endpoint r.headers_in) job.world job.request

  unfoldable pub attempts : ℕ → Request → Request
  attempts zero r = r
  attempts (suc n) r = attempt (hosts n) (attempts n r)

  abbrev watching : Host → ℕ → Request → ResultWatcher
  watching host fd q = new_watcher (make_context conf endpoint q.headers_in) (pos fd) host.now

  watched-IsWaiting :
      (host : Host) (fd : ℕ) (q : Request)
      → CanCall host conf endpoint fd q
      → q.count ≢ 0
      → IsWaiting (watching host fd q) (after_pass q ms (new_call host conf endpoint fd q))
  unfolding start
  watched-IsWaiting host fd q c counted = record {
    watching = refl;
    handler = refl;
    set = refl;
    connected = c.connected;
    counted = counted;
  }

  -- What an attempt leaves that brings nothing.
  attempt_leaves :
      (host : Host) (fd : ℕ) (q : Request) (inbound : Inbound)
      → CanCall host conf endpoint fd q
      → q.count ≢ 0
      → PeerAnswers tonic (make_context conf endpoint q.headers_in) inbound
      → first (stream_offers (to_ascii_lowercase (epp_header conf)) inbound.messages) ≡ none
      → inbound.ending ≢ silent
      → ms ≤ conf.epp_timeout_ms
      → conf.epp_failure_mode_allow ≡ true
      → conf.default_upstream ≡ none
      → attempt host q
        ≡ call run_phases (record q { request_body = clear_post_handler q.request_body })
  unfolding attempt serve start new_watcher make_context
  attempt_leaves host fd q inbound c counted a offers loud early open_mode bare =
      ap (λ p. serve (make_context conf endpoint q.headers_in) p.0.world p.0.request)
        (pass_calls ngx json host conf endpoint fd q c)
      ∙ (no_choice_fails tonic inbound body (watching host fd q)
            (after_pass q ms (new_call host conf endpoint fd q)) a
            (watched-IsWaiting host fd q c counted) (omega arith) offers loud
          ∙ failure_leaves host.pool conf endpoint q.headers_in bad_gateway q open_mode bare)

  module _ (r : Request) (fds : ℕ → ℕ) (inbound : Inbound)
      (can : (n : ℕ) → CanCall (hosts n) conf endpoint (fds n) r) (counted : r.count ≢ 0)
      (a : PeerAnswers tonic (make_context conf endpoint r.headers_in) inbound)
      (offers : first (stream_offers (to_ascii_lowercase (epp_header conf)) inbound.messages)
        ≡ none)
      (loud : inbound.ending ≢ silent) (early : ms ≤ conf.epp_timeout_ms)
      (open_mode : conf.epp_failure_mode_allow ≡ true) (bare : conf.default_upstream ≡ none) where
    -- A further attempt on a request that attempts have left.
    attempt_again :
        (n : ℕ) (q : Request)
        → IsResumed r q
        → attempt (hosts n) q
          ≡ call run_phases (record q { request_body = clear_post_handler q.request_body })
    attempt_again n q same =
        attempt_leaves (hosts n) (fds n) q inbound
          (CanCall-IsResumed (hosts n) conf endpoint (fds n) r q same (can n))
          (λ z. counted (sym same.count ∙ z))
          (subst (λ hs. PeerAnswers tonic (make_context conf endpoint hs) inbound)
            (sym same.headers) a)
          offers loud early open_mode bare

    left-IsResumed :
        (q : Request)
        → IsResumed r q
        → IsResumed r
            (call run_phases (record q { request_body = clear_post_handler q.request_body }))
    left-IsResumed q same = record {
      headers = same.headers;
      status = same.status;
      connection = same.connection;
      count = same.count;
      body = λ b there. let (handler, e) = same.body b there in (false, ap clear_post_handler e);
    }

    attempts-IsResumed :
        (n : ℕ) → IsResumed r (attempts n r) × (answers (attempts n r).calls ≡ answers r.calls + n)
    unfolding attempts
    attempts-IsResumed zero = (
      record {
        headers = refl;
        status = refl;
        connection = refl;
        count = refl;
        body = λ b there. (b.post_handler, there);
      },
      omega arith,
    )
    attempts-IsResumed (suc n) =
        let (same, count) = attempts-IsResumed n in
        let left = attempt_again n (attempts n r) same in
        (
          subst (IsResumed r) (sym left) (left-IsResumed (attempts n r) same),
          ap (λ (t : Request). answers t.calls) left
              ∙ omega (arith, count, answers-append (attempts n r).calls (run_phases ∷ [])),
        )

    -- In fail-open mode with no default upstream, and a peer that takes the connection and
    -- the call, sends its first message in time, offers nothing under the header's name, and
    -- then ends the stream or fails: for a request for which a pass can make a call, with a
    -- reference, however many attempts have failed, each resumed the phases once, the header
    -- is still not set, and the next pass starts a call again and returns NGX_DONE. Each
    -- attempt is a pass, the end of its task and a firing of its timer within the timeout.
    pub failing_peer_loops :
        (n : ℕ)
        → let q = attempts n r in
          (inference_access_handler ngx json (hosts n) (some conf) q ≡ (
            record { request = q; world = some (new_call (hosts n) conf endpoint (fds n) q) },
            ngx_done,
          ))
          × (answers q.calls ≡ answers r.calls + n)
          × (get_header_in q.headers_in (epp_header conf) ≡ none)
    failing_peer_loops n =
        let (same, count) = attempts-IsResumed n in
        let c = CanCall-IsResumed (hosts n) conf endpoint (fds n) r (attempts n r) same (can n) in
        (pass_calls ngx json (hosts n) conf endpoint (fds n) (attempts n r) c, count, c.unset)

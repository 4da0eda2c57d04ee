-- ===== src/Access/Shared/Tests.antt =====
-- Several calls for one concrete request, at once and one after the other.
use ngx_inference.Prelude.{ℕ, ◌+◌, ◌*◌, ◌≡◌, refl, inr, false, [], ◌∷◌, none, some, arith}
use mathlib.Core.Path.{subst}
use ngx_inference.Text.{bytes, starts_with, to_ascii_lowercase, lower, eq_ignore_ascii_case}
use ngx_inference.Utf8.{is_utf8}
use ngx_inference.Config.{ModuleConfig}
use ngx_inference.Nginx.{ngx_done}
use ngx_inference.Nginx.Headers.{get_header_in}
use ngx_inference.Epp.Begun.{ReadsBody}
use ngx_inference.Epp.Context.{configured_endpoint, epp_header, make_context}
use ngx_inference.Epp.Delivery.{PeerAnswers}
use ngx_inference.Epp.Race
use ngx_inference.Epp.Race.{answers}
use ngx_inference.Epp.Start.{Host}
use ngx_inference.Epp.Timer.{World, start, fire}
use ngx_inference.Grpc.Channel.{open_channel, normalize_endpoint, system_roots}
use ngx_inference.Grpc.Stream.{first_times_out}
use ngx_inference.Access.{inference_access_handler}
use ngx_inference.Access.Repeat.{CanCall, new_call}
use ngx_inference.Access.Retry.{attempts, failing_peer_loops}
use ngx_inference.Access.Shared.{Shared, Reach, alone, next, moves, out}
use ngx_inference.Access.Shared.Safety.{IsKept, Reach-IsKept}
use ngx_inference.Access.Shared.Overlap.{only-alone, passes_only, passes_overlap}
use ngx_inference.Fixtures.{model_json, roomy_nginx, chat_request, open_config}
use ngx_inference.Fixtures.Calls.{chat-CanCall, host_at}
use ngx_inference.Fixtures.Peer.{useless, useless_peer}

-- Fail-open, with nothing to fall back on, and the endpoint picker alone.
abbrev bare_config : ModuleConfig
bare_config = record open_config { bbr_enable = false; default_upstream = none }

abbrev hosts : ℕ → Host
hosts n = host_at (9 + n) (1000 + 100 * n)

hosts-ReadsBody : (n : ℕ) → ReadsBody (hosts n)
hosts-ReadsBody n = record { reads = λ handler job. (job, refl, inr refl) }

hosts-CanCall : (n : ℕ) → CanCall (hosts n) bare_config (bytes "epp:9002") (9 + n) chat_request
unfolding epp_header is_utf8 eq_ignore_ascii_case lower configured_endpoint get_header_in
hosts-CanCall n =
    chat-CanCall bare_config (9 + n) (1000 + 100 * n) refl refl refl refl (omega arith)

passes_overlap_example :
    let s = passes_only roomy_nginx model_json hosts bare_config 3 (alone chat_request) in
    Reach roomy_nginx model_json hosts bare_config (alone chat_request) s
    × (s.request ≡ chat_request)
    × (out s.calls ≡ 3)
    × (inference_access_handler roomy_nginx model_json (hosts 3) (some bare_config) s.request ≡ (
      record {
        request = chat_request;
        world = some (new_call (hosts 3) bare_config (bytes "epp:9002") 12 chat_request);
      },
      ngx_done,
    ))
passes_overlap_example =
    passes_overlap roomy_nginx model_json hosts bare_config (bytes "epp:9002") (λ n. 9 + n)
      chat_request hosts-CanCall 3

-- Two calls are out; the later one runs into its timeout.
abbrev first_call : World
first_call = new_call (hosts 0) bare_config (bytes "epp:9002") 9 chat_request

abbrev second_call : World
second_call = new_call (hosts 1) bare_config (bytes "epp:9002") 10 chat_request

abbrev two_out : Shared
two_out = record { request = chat_request; calls = second_call ∷ first_call ∷ []; own = 0 }

two_out-Reach : Reach roomy_nginx model_json hosts bare_config (alone chat_request) two_out
two_out-Reach =
    subst (Reach roomy_nginx model_json hosts bare_config (alone chat_request))
      (only-alone roomy_nginx model_json hosts bare_config (bytes "epp:9002") (λ n. 9 + n)
        chat_request hosts-CanCall 2)
      (passes_overlap roomy_nginx model_json hosts bare_config (bytes "epp:9002") (λ n. 9 + n)
        chat_request hosts-CanCall 2).0

abbrev late_call : World
late_call = record second_call { now = second_call.now + 300 }

abbrev one_out : Shared
one_out = record {
  request = (fire late_call).request;
  calls = fire late_call ∷ first_call ∷ [];
  own = 0;
}

one_out-Reach : Reach roomy_nginx model_json hosts bare_config (alone chat_request) one_out
unfolding start
one_out-Reach =
    next
      (next two_out-Reach (
        moves two_out [] (first_call ∷ []) second_call late_call refl
          (Race.passes second_call 300)))
      (moves (record two_out { calls = late_call ∷ first_call ∷ [] }) [] (first_call ∷ []) late_call
        (fire late_call) refl (Race.expires late_call refl))

Reach-IsKept_example : IsKept (answers chat_request.calls) one_out
Reach-IsKept_example =
    Reach-IsKept roomy_nginx model_json hosts bare_config hosts-ReadsBody chat_request one_out
      one_out-Reach

useless_answers :
    PeerAnswers useless_peer
      (make_context bare_config (bytes "epp:9002") chat_request.headers_in)
      useless
unfolding open_channel normalize_endpoint starts_with first_times_out make_context
useless_answers = record {
  uri = bytes "https://epp:9002";
  tls = system_roots (bytes "epp");
  opens = refl;
  streams = refl;
  in_time = refl;
}

failing_peer_loops_example :
    let q =
      attempts roomy_nginx model_json hosts useless_peer bare_config
        (bytes "epp:9002")
        []
        7
        3
        chat_request in
    (inference_access_handler roomy_nginx model_json (hosts 3) (some bare_config) q ≡ (
      record { request = q; world = some (new_call (hosts 3) bare_config (bytes "epp:9002") 12 q) },
      ngx_done,
    ))
    × (answers q.calls ≡ answers chat_request.calls + 3)
    × (get_header_in q.headers_in (epp_header bare_config) ≡ none)
unfolding epp_header to_ascii_lowercase lower eq_ignore_ascii_case
failing_peer_loops_example =
    failing_peer_loops roomy_nginx model_json hosts useless_peer bare_config (bytes "epp:9002") [] 7
      chat_request (λ n. 9 + n) useless hosts-CanCall (ground arith) useless_answers refl
      (ground arith) (omega arith) refl refl 3

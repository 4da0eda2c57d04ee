-- ===== src/Epp/DeliveryTests.antt =====
-- One call against a concrete endpoint picker.
use ngx_inference.Prelude.{◌+◌, ◌≡◌, refl, true, [], none, pos, arith}
use ngx_inference.Utf8.{is_utf8}
use ngx_inference.Text.{bytes, to_ascii_lowercase, lower, eq_ignore_ascii_case, starts_with}
use ngx_inference.Grpc.Channel.{open_channel, normalize_endpoint, system_roots}
use ngx_inference.Grpc.Stream.{finished, first_times_out}
use ngx_inference.Epp.Context.{AsyncEppContext, ResultWatcher}
use ngx_inference.Epp.Failure.{upstream, process_epp_result}
use ngx_inference.Epp.Task.{process_epp_async, task_result}
use ngx_inference.Epp.Timer.{World, fire, start, task_send}
use ngx_inference.Epp.Poll.{IsWaiting}
use ngx_inference.Grpc.Typed.{DecodesText}
use ngx_inference.Epp.Typed.{IsReadBack, written-IsReadBack}
use ngx_inference.Epp.Delivery.{task_reads, PeerAnswers}
use ngx_inference.Epp.Race.{passes, sends, expires}
use ngx_inference.Epp.Outcome.{Outcome, SpecReach}
use ngx_inference.Epp.Refine.{Simulates}
use ngx_inference.Epp.System.{Runs, begins, moves, IsJustified, Runs-Simulates}
use ngx_inference.Fixtures.{chat_request, roomy_pool}
use ngx_inference.Fixtures.Peer.{inbound, peer, useless, useless_peer}

abbrev context : AsyncEppContext
context = record {
  endpoint = bytes "epp:9002";
  upstream_header = bytes "X-Inference-Upstream";
  timeout_ms = 20;
  headers = [];
  use_tls = true;
  ca_file = none;
  failure_mode_allow = true;
  default_upstream = none;
}

abbrev watcher : ResultWatcher
watcher = record { ctx = context; start_time_ms = 1000; eventfd = pos 9 }

abbrev later : World
later = let w = start chat_request roomy_pool watcher in record w { now = w.now + 5 }

later-IsWaiting : IsWaiting watcher later
unfolding start
later-IsWaiting = record {
  watching = refl;
  handler = refl;
  set = refl;
  connected = refl;
  counted = ground arith;
}

peer_answers : PeerAnswers peer context inbound
unfolding open_channel normalize_endpoint starts_with first_times_out
peer_answers = record {
  uri = bytes "https://epp:9002";
  tls = system_roots (bytes "epp");
  opens = refl;
  streams = refl;
  in_time = refl;
}

useless_peer_answers : PeerAnswers useless_peer context useless
unfolding open_channel normalize_endpoint starts_with first_times_out
useless_peer_answers = record {
  uri = bytes "https://epp:9002";
  tls = system_roots (bytes "epp");
  opens = refl;
  streams = refl;
  in_time = refl;
}

-- What the task of the call returns.
found : process_epp_async peer context [] ≡ finished (upstream (bytes "10.0.0.2:80"))
unfolding to_ascii_lowercase lower eq_ignore_ascii_case task_result
found = task_reads peer context inbound [] peer_answers

-- All that the peer sends is text.
peer_decodes : DecodesText peer
unfolding is_utf8
peer_decodes = record { decodes = λ uri tls m inbound e. ground arith }

written-IsReadBack_example :
    IsReadBack
      (bytes "X-Inference-Upstream")
      chat_request.headers_in
      (process_epp_result roomy_pool context
        (upstream (bytes "10.0.0.2:80"))
        chat_request).headers_in
unfolding is_utf8 eq_ignore_ascii_case lower
written-IsReadBack_example =
    written-IsReadBack roomy_pool context refl (λ v e. ground arith) peer []
      (upstream (bytes "10.0.0.2:80")) chat_request peer_decodes refl found

-- Five milliseconds pass, the task sends, and the timer expires.
abbrev answered : World
answered = task_send (upstream (bytes "10.0.0.2:80")) later

answered-Runs : Runs peer context [] (start chat_request roomy_pool watcher) (fire answered)
unfolding start task_send
answered-Runs =
    moves
      (moves (moves begins (passes (start chat_request roomy_pool watcher) 5) tt)
        (sends later (upstream (bytes "10.0.0.2:80")) refl) found)
      (expires answered refl) tt

Runs-Simulates_example :
    (o : Outcome) × SpecReach context o
    × Simulates context chat_request o (fire answered)
    × IsJustified peer context [] o
Runs-Simulates_example =
    Runs-Simulates peer [] chat_request roomy_pool watcher (fire answered) refl answered-Runs

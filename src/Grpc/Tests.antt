-- ===== src/Grpc/Tests.antt =====
-- The ext-proc client against a concrete peer.
use ngx_inference.Prelude.{◌≡◌, Bool, true, false, [], ◌∷◌, Option, none, some}
use ngx_inference.Text.{Bytes, bytes, lower, eq_ignore_ascii_case}
use ngx_inference.Grpc.Mutation.{parse_response_for_header_async}
use ngx_inference.Grpc.Channel.{Result, ok, err}
use ngx_inference.Grpc.Stream.{finished, first_times_out, read_stream, read_stream-first}
use ngx_inference.Grpc.Client.{EppCall, epp_headers_blocking_internal}
use ngx_inference.Grpc.Blocking.{epp_headers_blocking, logged}
use ngx_inference.Grpc.Async.{epp_headers_async}
use ngx_inference.Grpc.Async.Pieces.{forget_in}
use ngx_inference.Grpc.Entries.{call_back, entry_points_agree}
use ngx_inference.Fixtures.Peer.{key, inbound, peer}

abbrev epp_call : EppCall
epp_call = record {
  endpoint = bytes "epp:9002";
  timeout_ms = 200;
  header_name = bytes "X-Inference-Upstream";
  headers = (bytes "Host", bytes "example.org") ∷ [];
  use_tls = true;
  ca_file = none;
}

read_stream-first_example :
    read_stream parse_response_for_header_async key 200 inbound
    ≡ finished (ok (some (bytes "10.0.0.2:80")))
unfolding eq_ignore_ascii_case lower first_times_out
read_stream-first_example = read_stream-first key 200 inbound

abbrev is_ok : Result (Option Bytes) → Bool
is_ok (ok value) = true
is_ok (err e) = false

entry_points_agree_example :
    let internal = epp_headers_blocking_internal peer epp_call in
    (epp_headers_blocking false peer epp_call ≡ logged internal)
    × (epp_headers_async peer epp_call is_ok ≡ call_back is_ok (forget_in internal))
entry_points_agree_example = entry_points_agree peer epp_call false is_ok

-- ===== src/Mock/Tests.antt =====
-- The mock on concrete streams.
use ngx_inference.Prelude.{ℕ, ◌≡◌, refl, true, List, [], ◌∷◌, Option, none, some, arith, inr}
use ngx_inference.Text.{Bytes, bytes, bytes_eq, to_ascii_lowercase, lower, starts_with}
use ngx_inference.Utf8.{from_utf8}
use ngx_inference.Model.{extract_model_from_body}
use ngx_inference.Grpc.Mutation.{first}
use ngx_inference.Grpc.Channel.{
  Tonic, ok, system_roots, open_channel, normalize_endpoint, closed, headers_message,
}
use ngx_inference.Grpc.Stream.{finished, stream_offers}
use ngx_inference.Grpc.Client.{EppCall, epp_headers_blocking_internal}
use ngx_inference.Mock.{
  ExtProcMock, Inbound, request_headers, request_body, other, failure, reply, status, headers_resp,
  body_resp, process, Env, main, unwrap_or,
}
use ngx_inference.Mock.Received.{received_messages, received_ending, upstream_key}
use ngx_inference.Mock.Stream.{process_selects}
use ngx_inference.Mock.Client.{stream_of, client_gets_upstream}
use ngx_inference.Mock.Chunks.{body_stream, ReadsSlices, process_chunks}
use ngx_inference.Fixtures.{model_json}
use ngx_inference.Fixtures.Peer.{peer}

-- The fixture's reader of JSON, on slices.
unfoldable slice : Bytes → Option model_json.Value
slice b = elim (from_utf8 b) [ none ↦ none | some s ↦ model_json.from_str s ]

slice-ReadsSlices : ReadsSlices model_json slice
unfolding slice from_utf8
slice-ReadsSlices = record { utf8 = λ b h. ground (arith, h); not_utf8 = λ b h. ground (arith, h) }

abbrev picker : ExtProcMock
picker = record {
  epp_upstream = bytes "10.0.0.9:80";
  bbr_model = bytes "fallback";
  role = bytes "EPP";
}

-- A body, then headers, then something else.
abbrev mixed : List (Inbound ℕ)
mixed =
    request_body (record { body = bytes "{}"; end_of_stream = true })
    ∷ (request_headers (headers_message []) ∷ (other ∷ []))

process_selects_example :
    let items = process model_json slice picker 4 mixed in
    (first (stream_offers upstream_key (received_messages items)) ≡ some (bytes "10.0.0.9:80"))
    × (received_ending items ≡ closed)
unfolding bytes_eq
process_selects_example =
    process_selects model_json slice picker refl refl 4 mixed refl (omega arith)

-- A stream that fails at once gets the status, and then still the headers' reply.
failed_stream :
    process {Status = ℕ} model_json slice picker 4 (failure 13 ∷ [])
    ≡ status 13 ∷ (reply (headers_resp picker) ∷ [])
unfolding process bytes_eq
failed_stream = refl

abbrev env : Env
env = record {
  arg = some (bytes "0.0.0.0:9001");
  var = λ name. none;
  parse_port = λ address. some 9001;
}

-- The mock as it is started there.
abbrev started : ExtProcMock
started = record {
  epp_upstream = bytes "host.docker.internal:18080";
  bbr_model = bytes "bbr-chosen-model";
  role = bytes "EPP";
}

started_by_main : main env ≡ some started
unfolding main
started_by_main = refl

abbrev epp_call : EppCall
epp_call = record {
  endpoint = bytes "epp:9001";
  timeout_ms = 200;
  header_name = bytes "X-INFERENCE-Upstream";
  headers = (bytes "Host", bytes "example.org") ∷ [];
  use_tls = true;
  ca_file = none;
}

abbrev mock_peer : Tonic
mock_peer = record peer {
  process = λ uri tls message. some (
      stream_of 5 (process {Status = ℕ} model_json slice started 1 (request_headers message ∷ [])));
}

opened :
    open_channel mock_peer (bytes "https://epp:9001") true none
    ≡ ok (bytes "https://epp:9001", system_roots (bytes "epp"))
unfolding open_channel
opened = refl

client_gets_upstream_example :
    epp_headers_blocking_internal mock_peer epp_call
    ≡ finished (ok (some (bytes "host.docker.internal:18080")))
unfolding to_ascii_lowercase lower normalize_endpoint starts_with
client_gets_upstream_example =
    client_gets_upstream ℕ model_json slice env started mock_peer epp_call
      (bytes "https://epp:9001") (system_roots (bytes "epp")) 9001 0 5 started_by_main refl refl
      refl refl opened refl (inr (omega arith)) refl

abbrev router : ExtProcMock
router = record picker { role = bytes "BBR" }

process_chunks_example :
    process {Status = ℕ} model_json slice router 2 (
      request_headers (headers_message [])
      ∷ body_stream (bytes "{\"mod" ∷ (bytes "el\":\"ll" ∷ [])) (bytes "ama\"}"))
    ≡ reply (
        body_resp router (
          unwrap_or
            (extract_model_from_body model_json (bytes "{\"model\":\"llama\"}"))
            (bytes "fallback")))
      ∷ []
unfolding bytes_eq
process_chunks_example =
    process_chunks model_json slice router refl (headers_message [])
      (bytes "{\"mod" ∷ (bytes "el\":\"ll" ∷ [])) (bytes "ama\"}") 1 slice-ReadsSlices

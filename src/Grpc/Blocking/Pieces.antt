-- ===== src/Grpc/Blocking/Pieces.antt =====
-- `epp_headers_blocking` against the worker's function (src/grpc.rs), piece by piece.
use ngx_inference.Prelude.{
  ◌≡◌, ◌∙◌, refl, ap, List, [], ◌∷◌, arith, Bool-cases, Option-cases, inl, inr,
}
use ngx_inference.Text.{Bytes, to_ascii_lowercase}
use ngx_inference.Grpc.Proto.{ProcessingResponse}
use ngx_inference.Grpc.Logged.{parse_response_for_header}
use ngx_inference.Grpc.Channel.{
  Result, ok, err, Tls, Tonic, Ending, closed, failed, silent, normalize_endpoint, open_channel,
  header_entry, header_entries, headers_message,
}
use ngx_inference.Grpc.Stream.{finished, Selection, Parser, read_rest, read_stream, read_next_rest}
use ngx_inference.Grpc.Client.{EppCall, exchange, run_stream}
use ngx_inference.Grpc.Blocking.{
  blocking_entries, blocking_message, blocking_channel, blocking_read, blocking_stream,
  blocking_exchange,
}

abbrev pub logged_parser : Parser
logged_parser resp key = (parse_response_for_header resp key).1

-- The rest of a call, with the channel's URI in its argument or not.
pub after_open :
    (r : Result Tls) (uri : Bytes) (k : Bytes × Tls → Selection) (l : Tls → Selection)
    → ((tls : Tls) → k (uri, tls) ≡ l tls)
    → ◌≡◌ {A = Selection}
        (elim (elim r as (λ _. Result (Bytes × Tls)) [ err e ↦ err e | ok tls ↦ ok (uri, tls) ])
          as (λ _. Selection) [ err e ↦ finished (err e) | ok channel ↦ k channel ])
        (elim r as (λ _. Selection) [ err e ↦ finished (err e) | ok tls ↦ l tls ])
after_open (err e) uri k l same = refl
after_open (ok tls) uri k l same = same tls

-- With the URI, the channel of the worker's function.
blocking_channel_lem :
    (tonic : Tonic) (c : EppCall) (uri : Bytes)
    → open_channel tonic uri c.use_tls c.ca_file
      ≡ elim (blocking_channel tonic c uri) [ err e ↦ err e | ok tls ↦ ok (uri, tls) ]
unfolding blocking_channel open_channel
blocking_channel_lem tonic c uri = elim (Bool-cases c.use_tls) [
  | inr plain ↦ ground (arith, plain)
  | inl secure ↦ elim (Option-cases c.ca_file) [
    | inl roots ↦ ground (arith, secure, roots)
    | inr (path, e) ↦ ground (arith, secure, e)
  ]
]

blocking_entries_lem :
    (headers : List (Bytes × Bytes)) → header_entries headers ≡ blocking_entries headers
unfolding header_entries
blocking_entries_lem [] = refl
blocking_entries_lem (h ∷ hs) = ap (λ es. header_entry h ∷ es) (blocking_entries_lem hs)

blocking_message_lem : (c : EppCall) → headers_message c.headers ≡ blocking_message c
unfolding headers_message blocking_message
blocking_message_lem c = rw (blocking_entries_lem c.headers) refl

blocking_read_lem :
    (key : Bytes) (ms : List ProcessingResponse) (e : Ending)
    → read_rest logged_parser key ms e ≡ blocking_read key ms e
unfolding read_rest blocking_read
blocking_read_lem key [] closed = refl
blocking_read_lem key [] failed = refl
blocking_read_lem key [] silent = refl
blocking_read_lem key (m ∷ ms) e = ground (arith, blocking_read_lem key ms e)

blocking_stream_lem :
    (tonic : Tonic) (c : EppCall) (uri : Bytes) (tls : Tls)
    → run_stream logged_parser tonic c (uri, tls) ≡ blocking_stream tonic c uri tls
unfolding run_stream blocking_stream read_stream
blocking_stream_lem tonic c uri tls =
    elim (Option-cases (tonic.process uri tls (blocking_message c))) [
      | inl none_there ↦ ground (arith, none_there, blocking_message_lem c)
      | inr (inbound, there) ↦ ground (
        arith,
        there,
        blocking_message_lem c,
        read_next_rest logged_parser (to_ascii_lowercase c.header_name) inbound.messages
            inbound.ending,
        blocking_read_lem (to_ascii_lowercase c.header_name) inbound.messages inbound.ending,
      )
    ]

pub blocking_exchange_lem :
    (tonic : Tonic) (c : EppCall) → exchange logged_parser tonic c ≡ blocking_exchange tonic c
unfolding exchange blocking_exchange
blocking_exchange_lem tonic c =
    let uri = normalize_endpoint c.endpoint c.use_tls in
    ap
      (λ r. elim r [
        | err e ↦ finished (err e)
        | ok channel ↦ run_stream logged_parser tonic c channel
      ])
      (blocking_channel_lem tonic c uri)
    ∙ after_open (blocking_channel tonic c uri) uri (run_stream logged_parser tonic c)
        (blocking_stream tonic c uri) (blocking_stream_lem tonic c uri)

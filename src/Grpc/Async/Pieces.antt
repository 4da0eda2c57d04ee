-- ===== src/Grpc/Async/Pieces.antt =====
-- `epp_headers_async` against the worker's function (src/grpc.rs), piece by piece.
use ngx_inference.Prelude.{
  ◌≡◌, ◌∙◌, refl, ap, List, [], ◌∷◌, arith, Bool-cases, Option-cases, inl, inr, none,
}
use ngx_inference.Text.{Bytes, to_ascii_lowercase}
use ngx_inference.Grpc.Proto.{ProcessingResponse}
use ngx_inference.Grpc.Mutation.{parse_response_for_header_async}
use ngx_inference.Grpc.Channel.{
  Error, ca_read_error, Result, ok, err, Tls, Tonic, Ending, closed, failed, silent,
  normalize_endpoint, open_channel, header_entry, header_entries, headers_message,
}
use ngx_inference.Grpc.Stream.{Selection, finished, waiting, read_rest, read_stream, read_next_rest}
use ngx_inference.Grpc.Client.{EppCall, exchange, run_stream}
use ngx_inference.Grpc.Blocking.Pieces.{after_open}
use ngx_inference.Grpc.Async.{
  async_entries, async_message, async_channel, async_read, async_stream, async_exchange,
}

-- The error about the certificate's file, without the file's name: the one difference in the texts.
abbrev pub forget_path : Error → Error
forget_path (ca_read_error path) = ca_read_error none
forget_path e = e

abbrev pub forget : {A : Type 0} → Result A → Result A
forget (err e) = err (forget_path e)
forget (ok a) = ok a

abbrev pub forget_in : Selection → Selection
forget_in (finished result) = finished (forget result)
forget_in waiting = waiting

-- With the URI, the channel of the worker's function.
async_channel_lem :
    (tonic : Tonic) (c : EppCall) (uri : Bytes)
    → forget (open_channel tonic uri c.use_tls c.ca_file)
      ≡ elim (async_channel tonic c uri) [ err e ↦ err e | ok tls ↦ ok (uri, tls) ]
unfolding async_channel open_channel
async_channel_lem tonic c uri = elim (Bool-cases c.use_tls) [
  | inr plain ↦ ground (arith, plain)
  | inl secure ↦ elim (Option-cases c.ca_file) [
    | inl roots ↦ ground (arith, secure, roots)
    | inr (path, e) ↦ ground (arith, secure, e)
  ]
]

async_entries_lem :
    (headers : List (Bytes × Bytes)) → header_entries headers ≡ async_entries headers
unfolding header_entries
async_entries_lem [] = refl
async_entries_lem (h ∷ hs) = ap (λ es. header_entry h ∷ es) (async_entries_lem hs)

async_message_lem : (c : EppCall) → headers_message c.headers ≡ async_message c
unfolding headers_message async_message
async_message_lem c = rw (async_entries_lem c.headers) refl

async_read_lem :
    (key : Bytes) (ms : List ProcessingResponse) (e : Ending)
    → read_rest parse_response_for_header_async key ms e ≡ async_read key ms e
unfolding read_rest async_read
async_read_lem key [] closed = refl
async_read_lem key [] failed = refl
async_read_lem key [] silent = refl
async_read_lem key (m ∷ ms) e = ground (arith, async_read_lem key ms e)

async_stream_lem :
    (tonic : Tonic) (c : EppCall) (uri : Bytes) (tls : Tls)
    → run_stream parse_response_for_header_async tonic c (uri, tls) ≡ async_stream tonic c uri tls
unfolding run_stream async_stream read_stream
async_stream_lem tonic c uri tls = elim (Option-cases (tonic.process uri tls (async_message c))) [
  | inl none_there ↦ ground (arith, none_there, async_message_lem c)
  | inr (inbound, there) ↦ ground (
    arith,
    there,
    async_message_lem c,
    read_next_rest parse_response_for_header_async (to_ascii_lowercase c.header_name)
        inbound.messages inbound.ending,
    async_read_lem (to_ascii_lowercase c.header_name) inbound.messages inbound.ending,
  )
]

-- What the stream ends with has no such text.
async_read_forgets :
    (key : Bytes) (ms : List ProcessingResponse) (e : Ending)
    → forget_in (async_read key ms e) ≡ async_read key ms e
unfolding async_read
async_read_forgets key [] closed = refl
async_read_forgets key [] failed = refl
async_read_forgets key [] silent = refl
async_read_forgets key (m ∷ ms) e = ground (arith, async_read_forgets key ms e)

async_stream_forgets :
    (tonic : Tonic) (c : EppCall) (uri : Bytes) (tls : Tls)
    → forget_in (async_stream tonic c uri tls) ≡ async_stream tonic c uri tls
unfolding async_stream
async_stream_forgets tonic c uri tls =
    elim (Option-cases (tonic.process uri tls (async_message c))) [
      | inl none_there ↦ ground (arith, none_there)
      | inr (inbound, there) ↦ ground (
        arith,
        there,
        async_read_forgets (to_ascii_lowercase c.header_name) inbound.messages inbound.ending,
      )
    ]

forget_after :
    (r : Result (Bytes × Tls)) (k : Bytes × Tls → Selection)
    → forget_in (elim r [ err e ↦ finished (err e) | ok channel ↦ k channel ])
      ≡ (elim (forget r) [ err e ↦ finished (err e) | ok channel ↦ forget_in (k channel) ])
forget_after (err e) k = refl
forget_after (ok channel) k = refl

pub async_exchange_lem :
    (tonic : Tonic) (c : EppCall)
    → forget_in (exchange parse_response_for_header_async tonic c) ≡ async_exchange tonic c
unfolding exchange async_exchange
async_exchange_lem tonic c =
    let uri = normalize_endpoint c.endpoint c.use_tls in
    forget_after (open_channel tonic uri c.use_tls c.ca_file)
      (run_stream parse_response_for_header_async tonic c)
    ∙ ap
        (λ r. elim r [
          | err e ↦ finished (err e)
          | ok channel ↦ forget_in (run_stream parse_response_for_header_async tonic c channel)
        ])
        (async_channel_lem tonic c uri)
    ∙ after_open (async_channel tonic c uri) uri
        (λ channel. forget_in (run_stream parse_response_for_header_async tonic c channel))
        (async_stream tonic c uri)
        (λ tls.
          ap forget_in (async_stream_lem tonic c uri tls) ∙ async_stream_forgets tonic c uri tls)

-- ===== src/Grpc/Stream.antt =====
-- Reading the response stream (src/grpc.rs): the first message, with the timeout, and the loop over
-- the later ones. `parse` is the parser that the caller uses.
use ngx_inference.Prelude.{
  ℕ, ◌≡◌, refl, Bool, true, false, List, [], ◌∷◌, ◌++◌, Option, none, some, arith, ltb, ◌==◌,
  if◌then◌else◌,
}
use ngx_inference.Text.{Bytes}
use ngx_inference.Grpc.Proto.{ProcessingResponse}
use ngx_inference.Grpc.Mutation.{
  parse_response_for_header_async, parse_response_first, all_offered, set_headers_of, first,
}
use ngx_inference.Grpc.Channel.{
  Result, ok, err, recv_error, Ending, closed, failed, silent, Inbound,
}

-- A task that has a result, or that still waits for the peer.
pub data Progress (A : Type 0) : Type 0 where
  finished : A → Progress A
  waiting : Progress A

abbrev pub Selection : Type 0
Selection = Progress (Result (Option Bytes))

abbrev pub Parser : Type 0
Parser = ProcessingResponse → Bytes → Option Bytes

-- The `loop`, over what is left of the stream. A stream that stays silent is never left.
unfoldable pub read_rest : Parser → Bytes → List ProcessingResponse → Ending → Selection
read_rest parse key [] closed = finished (ok none)
read_rest parse key [] failed = finished (err recv_error)
read_rest parse key [] silent = waiting
read_rest parse key (resp ∷ more) ending =
    let later = read_rest parse key more ending in
    elim (parse resp key) [ some val ↦ finished (ok (some val)) | none ↦ later ]

-- `match next`, and what follows it. After an end of the stream `message()` reports the end again.
unfoldable pub read_next : Parser → Bytes → List ProcessingResponse → Ending → Selection
unfolding read_rest
read_next parse key [] closed = read_rest parse key [] closed
read_next parse key [] failed = finished (err recv_error)
read_next parse key [] silent = waiting
read_next parse key (resp ∷ more) ending = elim (parse resp key) [
  | some val ↦ finished (ok (some val))
  | none ↦ read_rest parse key more ending
]

-- Whether anything comes at all.
abbrev never_comes : List ProcessingResponse → Ending → Bool
never_comes [] silent = true
never_comes _ _ = false

-- Whether `tokio::time::timeout` around the first message expires. A timeout of 0 is none.
unfoldable pub first_times_out : ℕ → Inbound → Bool
first_times_out timeout_ms inbound =
    if timeout_ms == 0
    then false
    else if never_comes inbound.messages inbound.ending
    then true
    else ltb timeout_ms inbound.first_delay

unfoldable pub read_stream : Parser → Bytes → ℕ → Inbound → Selection
read_stream parse key timeout_ms inbound =
    if first_times_out timeout_ms inbound
    then finished (ok none)
    else read_next parse key inbound.messages inbound.ending

-- Reference: all the values that the responses of a stream offer, in order.
abbrev pub stream_offers : Bytes → List ProcessingResponse → List Bytes
stream_offers key [] = []
stream_offers key (resp ∷ more) = all_offered key (set_headers_of resp) ++ stream_offers key more

abbrev pub at_end : Ending → Selection
at_end closed = finished (ok none)
at_end failed = finished (err recv_error)
at_end silent = waiting

abbrev pub select : Option Bytes → Ending → Selection
select (some val) ending = finished (ok (some val))
select none ending = at_end ending

first-append :
    (vs ws : List Bytes) (e : Ending)
    → select (first (vs ++ ws)) e
      ≡ elim (first vs) [ some v ↦ finished (ok (some v)) | none ↦ select (first ws) e ]
first-append [] ws e = refl
first-append (v ∷ vs) ws e = refl

read_rest-first :
    (key : Bytes) (ms : List ProcessingResponse) (e : Ending)
    → read_rest parse_response_for_header_async key ms e ≡ select (first (stream_offers key ms)) e
unfolding read_rest
read_rest-first key [] closed = refl
read_rest-first key [] failed = refl
read_rest-first key [] silent = refl
read_rest-first key (m ∷ ms) e = ground (
  arith,
  parse_response_first m key,
  read_rest-first key ms e,
  first-append (all_offered key (set_headers_of m)) (stream_offers key ms) e,
)

pub read_next_rest :
    (parse : Parser) (key : Bytes) (ms : List ProcessingResponse) (e : Ending)
    → read_next parse key ms e ≡ read_rest parse key ms e
unfolding read_next read_rest
read_next_rest parse key [] closed = refl
read_next_rest parse key [] failed = refl
read_next_rest parse key [] silent = refl
read_next_rest parse key (m ∷ ms) e = ground arith

-- The selection does not depend on how the endpoint picker spreads its headers over messages: when
-- the first message comes in time it is the first value offered in the whole stream. With no
-- value it is nothing once the stream is closed, an error once it fails, and the task waits as long as
-- the stream stays open, whatever the timeout. When the first message is late it is nothing.
pub read_stream-first :
    (key : Bytes) (timeout_ms : ℕ) (inbound : Inbound)
    → read_stream parse_response_for_header_async key timeout_ms inbound ≡ (
        if first_times_out timeout_ms inbound
        then finished (ok none)
        else select (first (stream_offers key inbound.messages)) inbound.ending)
unfolding read_stream
read_stream-first key timeout_ms inbound = rw (
  read_next_rest parse_response_for_header_async key inbound.messages inbound.ending,
  read_rest-first key inbound.messages inbound.ending,
)

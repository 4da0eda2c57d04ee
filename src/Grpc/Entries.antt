-- ===== src/Grpc/Entries.antt =====
-- The three entry points of src/grpc.rs, each of which writes the exchange out, against one another.
use ngx_inference.Prelude.{◌≡◌, ◌∙◌, sym, refl, ap, Bool, true, false, Option, if◌then◌else◌}
use mathlib.Core.Path.{fun_ext}
use ngx_inference.Text.{Bytes}
use ngx_inference.Grpc.Mutation.{parse_response_for_header_async}
use ngx_inference.Grpc.Logged.{parse_response_agree}
use ngx_inference.Grpc.Channel.{Result, err, panicked, Tonic}
use ngx_inference.Grpc.Stream.{Progress, finished, waiting, Selection}
use ngx_inference.Grpc.Client.{EppCall, exchange, epp_headers_blocking_internal}
use ngx_inference.Grpc.Blocking.{
  epp_headers_blocking, blocking_exchange, logged, operation_panicked,
}
use ngx_inference.Grpc.Blocking.Pieces.{logged_parser, blocking_exchange_lem}
use ngx_inference.Grpc.Async.{epp_headers_async, async_exchange}
use ngx_inference.Grpc.Async.Pieces.{forget_in, async_exchange_lem}

parsers_agree : logged_parser ≡ parse_response_for_header_async
parsers_agree = fun_ext (λ resp. fun_ext (λ key. parse_response_agree resp key))

blocking_agrees :
    (tonic : Tonic) (c : EppCall)
    → blocking_exchange tonic c ≡ epp_headers_blocking_internal tonic c
unfolding epp_headers_blocking_internal
blocking_agrees tonic c =
    sym (blocking_exchange_lem tonic c) ∙ ap (λ p. exchange p tonic c) parsers_agree

async_agrees :
    (tonic : Tonic) (c : EppCall)
    → async_exchange tonic c ≡ forget_in (epp_headers_blocking_internal tonic c)
unfolding epp_headers_blocking_internal
async_agrees tonic c = sym (async_exchange_lem tonic c)

abbrev pub call_back : {A : Type 0} → (Result (Option Bytes) → A) → Selection → Progress A
call_back f (finished result) = finished (f result)
call_back f waiting = waiting

called_back :
    {A : Type 0} (tonic : Tonic) (c : EppCall) (callback : Result (Option Bytes) → A)
    → epp_headers_async tonic c callback
      ≡ call_back callback (forget_in (epp_headers_blocking_internal tonic c))
unfolding epp_headers_async
called_back tonic c callback = ap (call_back callback) (async_agrees tonic c)

-- The three entry points select the same upstream, or fail at the same place, on every endpoint,
-- configuration and stream: the blocking one returns what the worker's function returns, with
-- its line for the log, unless something in it panics, and then an error; the one with a
-- callback hands it the same, except that its error about an unreadable certificate file does
-- not name the file. The details that an error's text takes from tonic or the file system are
-- left out of this.
pub entry_points_agree :
    {A : Type 0} (tonic : Tonic) (c : EppCall) (panics : Bool)
    (callback : Result (Option Bytes) → A)
    → let internal = epp_headers_blocking_internal tonic c in
      (epp_headers_blocking panics tonic c ≡ (
        if panics then finished (err panicked, operation_panicked c.endpoint) else logged internal))
      × (epp_headers_async tonic c callback ≡ call_back callback (forget_in internal))
unfolding epp_headers_blocking epp_headers_async
entry_points_agree tonic c true callback = (refl, called_back tonic c callback)
entry_points_agree tonic c false callback =
    (ap logged (blocking_agrees tonic c), called_back tonic c callback)

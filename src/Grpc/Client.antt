-- ===== src/Grpc/Client.antt =====
-- The whole exchange, as the task makes it: `epp_headers_blocking_internal` of src/grpc.rs. `exchange`
-- leaves the parser open.
use ngx_inference.Prelude.{ℕ, ◌≡◌, Bool, List, Option, none, some, arith}
use ngx_inference.Text.{Bytes, to_ascii_lowercase}
use ngx_inference.Text.Case.{lowercase_idem}
use ngx_inference.Grpc.Mutation.{parse_response_for_header_async}
use ngx_inference.Grpc.Channel.{
  rpc_error, ok, err, Tls, Tonic, normalize_endpoint, open_channel, headers_message,
}
use ngx_inference.Grpc.Stream.{finished, Selection, Parser, read_stream}

-- What a call is given.
pub record EppCall : Type 0 where
  pub endpoint : Bytes
  pub timeout_ms : ℕ
  pub header_name : Bytes
  pub headers : List (Bytes × Bytes)
  pub use_tls : Bool
  pub ca_file : Option Bytes

-- The call of `client.process` and the reading of its stream.
unfoldable pub run_stream : Parser → Tonic → EppCall → Bytes × Tls → Selection
run_stream parse tonic c (uri, tls) = elim (tonic.process uri tls (headers_message c.headers)) [
  | none ↦ finished (err rpc_error)
  | some inbound ↦ read_stream parse (to_ascii_lowercase c.header_name) c.timeout_ms inbound
]

unfoldable pub exchange : Parser → Tonic → EppCall → Selection
exchange parse tonic c =
    elim (open_channel tonic (normalize_endpoint c.endpoint c.use_tls) c.use_tls c.ca_file) [
      | err e ↦ finished (err e)
      | ok channel ↦ run_stream parse tonic c channel
    ]

-- `epp_headers_blocking_internal`.
unfoldable pub epp_headers_blocking_internal : Tonic → EppCall → Selection
epp_headers_blocking_internal = exchange parse_response_for_header_async

-- The case of the configured header name makes no difference to the selection.
pub epp_headers-lowercase :
    (tonic : Tonic) (c : EppCall)
    → epp_headers_blocking_internal tonic
        (record c { header_name = to_ascii_lowercase c.header_name })
      ≡ epp_headers_blocking_internal tonic c
unfolding epp_headers_blocking_internal exchange run_stream
epp_headers-lowercase tonic c = ground (arith, lowercase_idem c.header_name)

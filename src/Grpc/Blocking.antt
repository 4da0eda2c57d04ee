-- ===== src/Grpc/Blocking.antt =====
-- `epp_headers_blocking` of src/grpc.rs, which the worker does not use: it writes the exchange out
-- again, with the parser that logs, catches panics, and logs how it ended.
pub mod Pieces
use ngx_inference.Prelude.{
  ℕ, ◌≡◌, refl, Bool, true, false, List, [], ◌∷◌, Option, none, some, if◌then◌else◌, ◌==◌,
}
use ngx_inference.Text.{Bytes, bytes, to_ascii_lowercase}
use ngx_inference.Grpc.Proto.{HeaderValue, ProcessingRequest, ProcessingResponse, mode_none}
use ngx_inference.Grpc.Mutation.{parse_response_for_header_async}
use ngx_inference.Grpc.Logged.{parse_response_for_header}
use ngx_inference.Grpc.Channel.{
  Error, channel_error, ca_read_error, tls_config_error, tls_connect_error, http_connect_error,
  rpc_error, recv_error, panicked, Result, ok, err, ◌>>=◌, Tls, plaintext, system_roots, custom_ca,
  Tonic, Ending, closed, failed, silent, Inbound, normalize_endpoint, extract_domain_from_uri,
}
use ngx_inference.Grpc.Stream.{Progress, finished, waiting, Selection, first_times_out}
use ngx_inference.Grpc.Client.{EppCall}

-- A failure is returned at once.
abbrev pub check : Bool → Error → Result (Unit {0})
check true e = ok tt
check false e = err e

infixl 5 ◌>>◌
abbrev pub ◌>>◌ : {B : Type 0} → Result (Unit {0}) → Result B → Result B
m >> k = m >>= λ _. k

blocking_ca : Tonic → Bytes → Option Bytes → Result Tls
blocking_ca tonic domain none = ok (system_roots domain)
blocking_ca tonic domain (some ca_path) = elim (tonic.read_to_string ca_path) [
  | none ↦ err (ca_read_error (some ca_path))
  | some ca_cert ↦ ok (custom_ca domain ca_cert)
]

-- The branch with TLS: the domain, the configuration, and the connection.
blocking_secure : Tonic → EppCall → Bytes → Result Tls
unfolding blocking_ca
blocking_secure tonic c uri = do
  domain ← extract_domain_from_uri tonic uri
  tls_config ← blocking_ca tonic domain c.ca_file
  check (tonic.accepts_tls tls_config) tls_config_error
  check (tonic.connect uri tls_config) tls_connect_error
  ok tls_config

blocking_plain : Tonic → Bytes → Result Tls
blocking_plain tonic uri = do check (tonic.connect uri plaintext) http_connect_error; ok plaintext

blocking_channel : Tonic → EppCall → Bytes → Result Tls
unfolding blocking_secure blocking_plain
blocking_channel tonic c uri = do
  check (tonic.from_shared uri) channel_error
  if c.use_tls then blocking_secure tonic c uri else blocking_plain tonic uri

-- The one message.
abbrev blocking_entries : List (Bytes × Bytes) → List HeaderValue
blocking_entries [] = []
blocking_entries ((k, v) ∷ headers) =
    record { key = k; value = v; raw_value = [] } ∷ blocking_entries headers

blocking_message : EppCall → ProcessingRequest
blocking_message c = record {
  headers = blocking_entries c.headers;
  end_of_stream = true;
  filter_metadata = bytes "envoy.lb" ∷ [];
  observability_mode = false;
  protocol_config = record {
    request_body_mode = mode_none;
    response_body_mode = mode_none;
    send_body_without_waiting_for_header_response = false;
  };
}

-- `match next`, and the `loop`: the first message and the later ones are searched alike, and the end
-- of the stream ends either.
blocking_read : Bytes → List ProcessingResponse → Ending → Selection
blocking_read target_key_lower [] closed = finished (ok none)
blocking_read target_key_lower [] failed = finished (err recv_error)
blocking_read target_key_lower [] silent = waiting
blocking_read target_key_lower (resp ∷ more) ending =
    let later = blocking_read target_key_lower more ending in
    elim ((parse_response_for_header resp target_key_lower).1) [
      | some val ↦ finished (ok (some val))
      | none ↦ later
    ]

blocking_stream : Tonic → EppCall → Bytes → Tls → Selection
unfolding blocking_message blocking_read
blocking_stream tonic c uri tls = elim (tonic.process uri tls (blocking_message c)) [
  | none ↦ finished (err rpc_error)
  | some inbound ↦
      if first_times_out c.timeout_ms inbound
      then finished (ok none)
      else blocking_read (to_ascii_lowercase c.header_name) inbound.messages inbound.ending
]

-- The `async` block.
pub blocking_exchange : Tonic → EppCall → Selection
unfolding blocking_channel blocking_stream
blocking_exchange tonic c =
    let uri = normalize_endpoint c.endpoint c.use_tls in
    elim (blocking_channel tonic c uri) [
      | err e ↦ finished (err e)
      | ok tls ↦ blocking_stream tonic c uri tls
    ]

-- How it ended, in the log.
pub data LogLine : Type 0 where
  selected : Bytes → LogLine
  no_upstream : LogLine
  communication_failed : Error → LogLine
  operation_panicked : Bytes → LogLine

abbrev pub log_of : Result (Option Bytes) → LogLine
log_of (ok (some upstream)) = selected upstream
log_of (ok none) = no_upstream
log_of (err e) = communication_failed e

abbrev pub logged : Selection → Progress (Result (Option Bytes) × LogLine)
logged (finished grpc_result) = finished (grpc_result, log_of grpc_result)
logged waiting = waiting

-- `panics` says whether something inside `catch_unwind` panicked.
unfoldable pub epp_headers_blocking :
    Bool → Tonic → EppCall → Progress (Result (Option Bytes) × LogLine)
unfolding blocking_exchange
epp_headers_blocking panics tonic c =
    if panics
    then finished (err panicked, operation_panicked c.endpoint)
    else logged (blocking_exchange tonic c)

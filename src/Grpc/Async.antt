-- ===== src/Grpc/Async.antt =====
-- `epp_headers_async` of src/grpc.rs, which is kept for reference: it writes the exchange out a third
-- time, and hands the result to a callback.
pub mod Pieces
use ngx_inference.Prelude.{
  ℕ, ◌≡◌, refl, Bool, true, false, List, [], ◌∷◌, Option, none, some, if◌then◌else◌, ◌==◌,
}
use ngx_inference.Text.{Bytes, bytes, to_ascii_lowercase}
use ngx_inference.Grpc.Proto.{HeaderValue, ProcessingRequest, ProcessingResponse, mode_none}
use ngx_inference.Grpc.Mutation.{parse_response_for_header_async}
use ngx_inference.Grpc.Logged.{parse_response_for_header}
use ngx_inference.Grpc.Channel.{
  Error, channel_error, ca_read_error, tls_config_error, tls_connect_error, http_connect_error,
  rpc_error, recv_error, panicked, Result, ok, err, ◌>>=◌, Tls, plaintext, system_roots, custom_ca,
  Tonic, Ending, closed, failed, silent, Inbound, normalize_endpoint, extract_domain_from_uri,
}
use ngx_inference.Grpc.Stream.{Progress, finished, waiting, Selection, first_times_out}
use ngx_inference.Grpc.Client.{EppCall}
use ngx_inference.Grpc.Blocking.{check, ◌>>◌}

async_ca : Tonic → Bytes → Option Bytes → Result Tls
async_ca tonic domain none = ok (system_roots domain)
async_ca tonic domain (some ca_path) = elim (tonic.read_to_string ca_path) [
  | none ↦ err (ca_read_error none)
  | some ca_cert ↦ ok (custom_ca domain ca_cert)
]

-- The branch with TLS: the domain, the configuration, and the connection.
async_secure : Tonic → EppCall → Bytes → Result Tls
unfolding async_ca
async_secure tonic c uri = do
  domain ← extract_domain_from_uri tonic uri
  tls_config ← async_ca tonic domain c.ca_file
  check (tonic.accepts_tls tls_config) tls_config_error
  check (tonic.connect uri tls_config) tls_connect_error
  ok tls_config

async_plain : Tonic → Bytes → Result Tls
async_plain tonic uri = do check (tonic.connect uri plaintext) http_connect_error; ok plaintext

async_channel : Tonic → EppCall → Bytes → Result Tls
unfolding async_secure async_plain
async_channel tonic c uri = do
  check (tonic.from_shared uri) channel_error
  if c.use_tls then async_secure tonic c uri else async_plain tonic uri

-- The one message.
abbrev async_entries : List (Bytes × Bytes) → List HeaderValue
async_entries [] = []
async_entries ((k, v) ∷ headers) =
    record { key = k; value = v; raw_value = [] } ∷ async_entries headers

async_message : EppCall → ProcessingRequest
async_message c = record {
  headers = async_entries c.headers;
  end_of_stream = true;
  filter_metadata = bytes "envoy.lb" ∷ [];
  observability_mode = false;
  protocol_config = record {
    request_body_mode = mode_none;
    response_body_mode = mode_none;
    send_body_without_waiting_for_header_response = false;
  };
}

-- `match next`, and the `loop`: the first message and the later ones are searched alike, and the end
-- of the stream ends either.
async_read : Bytes → List ProcessingResponse → Ending → Selection
async_read target_key_lower [] closed = finished (ok none)
async_read target_key_lower [] failed = finished (err recv_error)
async_read target_key_lower [] silent = waiting
async_read target_key_lower (resp ∷ more) ending =
    let later = async_read target_key_lower more ending in
    elim (parse_response_for_header_async resp target_key_lower) [
      | some val ↦ finished (ok (some val))
      | none ↦ later
    ]

async_stream : Tonic → EppCall → Bytes → Tls → Selection
unfolding async_message async_read
async_stream tonic c uri tls = elim (tonic.process uri tls (async_message c)) [
  | none ↦ finished (err rpc_error)
  | some inbound ↦
      if first_times_out c.timeout_ms inbound
      then finished (ok none)
      else async_read (to_ascii_lowercase c.header_name) inbound.messages inbound.ending
]

-- The `async` block.
pub async_exchange : Tonic → EppCall → Selection
unfolding async_channel async_stream
async_exchange tonic c =
    let uri = normalize_endpoint c.endpoint c.use_tls in
    elim (async_channel tonic c uri) [
      | err e ↦ finished (err e)
      | ok tls ↦ async_stream tonic c uri tls
    ]

-- The callback is given the result, once there is one.
unfoldable pub epp_headers_async :
    {A : Type 0} → Tonic → EppCall → (Result (Option Bytes) → A) → Progress A
unfolding async_exchange
epp_headers_async tonic c completion_callback = elim (async_exchange tonic c) [
  | finished result ↦ finished (completion_callback result)
  | waiting ↦ waiting
]

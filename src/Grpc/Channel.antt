-- ===== src/Grpc/Channel.antt =====
-- The endpoint and the channel of src/grpc.rs: the scheme, the TLS configuration and the connection.
-- tonic, its URI parser and the file system are the parameter `Tonic`.
use ngx_inference.Prelude.{
  ℕ, ◌≡◌, refl, Bool, true, false, ◌||◌, List, [], ◌∷◌, ◌++◌, Option, none, some, arith,
  if◌then◌else◌,
}
use ngx_inference.Text.{Bytes, bytes, starts_with}
use ngx_inference.Grpc.Proto.{HeaderValue, ProcessingRequest, ProcessingResponse, mode_none}

-- `normalize_endpoint`.
unfoldable pub normalize_endpoint : Bytes → Bool → Bytes
normalize_endpoint endpoint use_tls =
    if starts_with (bytes "http://") endpoint || starts_with (bytes "https://") endpoint
    then endpoint
    else if use_tls
    then bytes "https://" ++ endpoint
    else bytes "http://" ++ endpoint

-- The error texts, by the place that makes them, without the details of the error behind them. The one
-- about the certificate's file names the file, or does not.
pub data Error : Type 0 where
  channel_error invalid_uri missing_authority tls_config_error : Error
  ca_read_error : Option Bytes → Error
  tls_connect_error http_connect_error rpc_error recv_error panicked : Error

pub data Result (A : Type 0) : Type 0 where
  err : Error → Result A
  ok : A → Result A

infixl 5 ◌>>=◌
abbrev pub ◌>>=◌ : {A B : Type 0} → Result A → (A → Result B) → Result B
◌>>=◌ m f = elim m [ err e ↦ err e | ok a ↦ f a ]

-- The rest of a function after a step that may fail with `e`.
abbrev pub require : {A : Type 0} → Error → Bool → Result A → Result A
require e good rest = if good then rest else err e

-- The TLS configuration that the endpoint is given: none, for a domain with the system's roots, or for
-- a domain with the given certificate. tonic applies it to an https:// URI only.
pub data Tls : Type 0 where
  plaintext : Tls
  system_roots : Bytes → Tls
  custom_ca : Bytes → Bytes → Tls

-- How the response stream ends: it is closed, it fails, or nothing more ever comes.
pub data Ending : Type 0 where
  closed failed silent : Ending

-- The responses of one stream, with the time in milliseconds until the first of them, or the end.
pub record Inbound : Type 0 where
  pub messages : List ProcessingResponse
  pub ending : Ending
  pub first_delay : ℕ

pub record Tonic : Type 0 where
  -- `Channel::from_shared`: whether the URI is accepted.
  pub from_shared : Bytes → Bool
  -- `uri.parse::<Uri>()`, and then the host of its authority, where it has one.
  pub parse_uri : Bytes → Option (Option Bytes)
  -- `std::fs::read_to_string`.
  pub read_to_string : Bytes → Option Bytes
  -- `Endpoint::tls_config`, `Endpoint::connect` and the `process` call: whether they succeed. The
  -- latter two are taken to end; the code puts no timeout on them.
  pub accepts_tls : Tls → Bool
  pub connect : Bytes → Tls → Bool
  pub process : Bytes → Tls → ProcessingRequest → Option Inbound

-- `extract_domain_from_uri`.
unfoldable pub extract_domain_from_uri : Tonic → Bytes → Result Bytes
extract_domain_from_uri tonic uri = elim (tonic.parse_uri uri) [
  | none ↦ err invalid_uri
  | some none ↦ err missing_authority
  | some (some host) ↦ ok host
]

read_ca : Tonic → Bytes → Result Bytes
read_ca tonic ca_path = elim (tonic.read_to_string ca_path) [
  | none ↦ err (ca_read_error (some ca_path))
  | some pem ↦ ok pem
]

-- The TLS configuration for a domain.
tls_for : Tonic → Bytes → Option Bytes → Result Tls
unfolding read_ca
tls_for tonic domain none = ok (system_roots domain)
tls_for tonic domain (some ca_path) = do pem ← read_ca tonic ca_path; ok (custom_ca domain pem)

-- From the URI to a connected channel: the URI, and the TLS configuration it was given.
unfoldable pub open_channel : Tonic → Bytes → Bool → Option Bytes → Result (Bytes × Tls)
unfolding tls_for extract_domain_from_uri
open_channel tonic uri true ca_file = require channel_error (tonic.from_shared uri) (do
  domain ← extract_domain_from_uri tonic uri
  tls ← tls_for tonic domain ca_file
  require tls_config_error (tonic.accepts_tls tls)
      (require tls_connect_error (tonic.connect uri tls) (ok (uri, tls))))
open_channel tonic uri false ca_file =
    require channel_error (tonic.from_shared uri)
      (require http_connect_error (tonic.connect uri plaintext) (ok (uri, plaintext)))

-- One entry of the header map.
abbrev pub header_entry : Bytes × Bytes → HeaderValue
header_entry (k, v) = record { key = k; value = v; raw_value = [] }

unfoldable pub header_entries : List (Bytes × Bytes) → List HeaderValue
header_entries [] = []
header_entries (h ∷ hs) = header_entry h ∷ header_entries hs

-- The one message that is sent.
unfoldable pub headers_message : List (Bytes × Bytes) → ProcessingRequest
headers_message headers = record {
  headers = header_entries headers;
  end_of_stream = true;
  filter_metadata = bytes "envoy.lb" ∷ [];
  observability_mode = false;
  protocol_config = record {
    request_body_mode = mode_none;
    response_body_mode = mode_none;
    send_body_without_waiting_for_header_response = false;
  };
}

-- The configuration of a channel that was asked to be secure: for the host of the URI, with the
-- certificate of the file where one is configured and with the system's roots where none is.
abbrev pub IsConfigured : Tonic → Option Bytes → Bytes → Tls → Type 0
IsConfigured tonic ca_file uri plaintext = ⊥
IsConfigured tonic ca_file uri (system_roots host) =
    (ca_file ≡ none) × (tonic.parse_uri uri ≡ some (some host))
IsConfigured tonic ca_file uri (custom_ca host pem) =
    (path : Bytes) × (ca_file ≡ some path)
    × (tonic.read_to_string path ≡ some pem)
    × (tonic.parse_uri uri ≡ some (some host))

starts_with_https :
    (endpoint : Bytes) → starts_with (bytes "https://") (bytes "https://" ++ endpoint) ≡ true
unfolding starts_with
starts_with_https endpoint = refl

abbrev pub has_scheme : Bytes → Bool
has_scheme endpoint =
    starts_with (bytes "http://") endpoint || starts_with (bytes "https://") endpoint

starts_with_http :
    (endpoint : Bytes) → starts_with (bytes "http://") (bytes "http://" ++ endpoint) ≡ true
unfolding starts_with
starts_with_http endpoint = refl

-- A normalized endpoint has a scheme, and normalizing it again, with either TLS setting, leaves it
-- as it is.
pub normalize_endpoint_idem :
    (endpoint : Bytes) (tls tls' : Bool)
    → let uri = normalize_endpoint endpoint tls in
      (has_scheme uri ≡ true) × (normalize_endpoint uri tls' ≡ uri)
unfolding normalize_endpoint
normalize_endpoint_idem endpoint tls tls' =
    ground (arith, starts_with_https endpoint, starts_with_http endpoint)

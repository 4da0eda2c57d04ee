-- ===== src/Fixtures/Peer.antt =====
-- A concrete endpoint picker for the tests.
use ngx_inference.Prelude.{true, [], ◌∷◌, none, some}
use ngx_inference.Text.{Bytes, bytes}
use ngx_inference.Grpc.Proto.{
  HeaderValueOption, ProcessingResponse, request_headers, immediate_response,
}
use ngx_inference.Grpc.Channel.{closed, Inbound, Tonic}

abbrev pub key : Bytes
key = bytes "x-inference-upstream"

abbrev entry : Bytes → HeaderValueOption
entry value = record {
  header = some (record { key = bytes "X-Inference-Upstream"; value = value; raw_value = [] });
}

-- A first message with nothing in it, then one with an empty value and a value.
abbrev pub blank : ProcessingResponse
blank = record { response = some (request_headers (record { response = none })) }

abbrev pub selecting : ProcessingResponse
selecting = record {
  response = some (
      immediate_response (record {
        headers = some (record { set_headers = entry [] ∷ entry (bytes "10.0.0.2:80") ∷ [] });
      }));
}

abbrev pub inbound : Inbound
inbound = record { messages = blank ∷ selecting ∷ []; ending = closed; first_delay = 5 }

-- A peer with one host, which takes every URI and every certificate.
abbrev pub peer : Tonic
peer = record {
  from_shared = λ uri. true;
  parse_uri = λ uri. some (some (bytes "epp"));
  read_to_string = λ path. none;
  accepts_tls = λ tls. true;
  connect = λ uri tls. true;
  process = λ uri tls message. some inbound;
}

-- A stream that never says anything of use.
abbrev pub useless : Inbound
useless = record { messages = blank ∷ []; ending = closed; first_delay = 5 }

abbrev pub useless_peer : Tonic
useless_peer = record peer { process = λ uri tls message. some useless }

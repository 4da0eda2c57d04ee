-- ===== src/Mock.antt =====
-- The mock ext-proc server of the integration tests (bin/extproc_mock.rs): its replies, its task for
-- one stream of requests, and how its environment sets it up. Its log lines are left out.
pub mod Received
pub mod Stream
pub mod Client
pub mod Chunks
mod Tests
use ngx_inference.Prelude.{
  ℕ, zero, suc, Bool, true, false, not, ◌&&◌, List, [], ◌∷◌, ◌++◌, Option, none, some, ◌==◌,
  if◌then◌else◌,
}
use ngx_inference.Text.{Bytes, bytes, bytes_eq}
use ngx_inference.Model.{Json}
use ngx_inference.Grpc.Proto
use ngx_inference.Grpc.Proto.{
  HeaderValue, HeaderValueOption, HeaderMutation, PhaseResponse, ProcessingRequest,
  ProcessingResponse,
}

unfoldable pub hv : Bytes → Bytes → HeaderValue
hv key value = record { key = key; value = value; raw_value = [] }

unfoldable pub hvo : Bytes → Bytes → HeaderValueOption
unfolding hv
hvo key value = record { header = some (hv key value) }

unfoldable pub build_header_mutation_headers : Bytes → HeaderMutation
unfolding hvo
build_header_mutation_headers epp_upstream = record {
  set_headers = hvo (bytes "X-Inference-Upstream") epp_upstream ∷ [];
}

unfoldable pub build_header_mutation_bbr : Bytes → HeaderMutation
unfolding hvo
build_header_mutation_bbr bbr_model = record {
  set_headers = hvo (bytes "X-Gateway-Model-Name") bbr_model ∷ [];
}

unfoldable pub build_headers_response : Bytes → Bytes → PhaseResponse
unfolding build_header_mutation_headers
build_headers_response epp_upstream bbr_model = record {
  response = some (record { header_mutation = some (build_header_mutation_headers epp_upstream) });
}

unfoldable pub build_body_response : Bytes → Bytes → PhaseResponse
unfolding build_header_mutation_bbr
build_body_response epp_upstream bbr_model = record {
  response = some (record { header_mutation = some (build_header_mutation_bbr bbr_model) });
}

pub record ExtProcMock : Type 0 where
  pub epp_upstream : Bytes
  pub bbr_model : Bytes
  pub role : Bytes

-- An `HttpBody`.
pub record HttpBody : Type 0 where
  pub body : Bytes
  pub end_of_stream : Bool

-- What `inbound.message()` gives: the `request` of a message, which may be of another kind or
-- missing, or the status of a failure.
pub data Inbound (Status : Type 0) : Type 0 where
  request_headers : ProcessingRequest → Inbound Status
  request_body : HttpBody → Inbound Status
  other : Inbound Status
  failure : Status → Inbound Status

-- What the task sends.
pub data Item (Status : Type 0) : Type 0 where
  reply : ProcessingResponse → Item Status
  status : Status → Item Status

-- The task's variables, what it has sent, and how many sends are still taken before the receiver of
-- its channel is dropped.
pub record Task (Status : Type 0) : Type 0 where
  pub sent_headers_response : Bool
  pub body_buf : Bytes
  pub current_bbr_model : Bytes
  pub out : List (Item Status)
  pub taken : ℕ

-- `tx.send`, and whether it succeeds.
unfoldable pub send : {Status : Type 0} → Item Status → Task Status → Task Status × Bool
send item t = elim t.taken [
  | zero ↦ (t, false)
  | suc n ↦ (record t { out = t.out ++ (item ∷ []); taken = n }, true)
]

-- The model in a body, or else the one before. `from_slice` is `serde_json::from_slice::<Value>`.
unfoldable pub detect : (json : Json) → (Bytes → Option json.Value) → Bytes → Bytes → Bytes
detect json from_slice body_buf before = elim (from_slice body_buf) [
  | none ↦ before
  | some v ↦ elim (json.get v (bytes "model")) [
    | none ↦ before
    | some x ↦ elim (json.as_str x) [ none ↦ before | some m ↦ m ]
  ]
]

-- The two replies.
abbrev pub headers_resp : ExtProcMock → ProcessingResponse
headers_resp mock = record {
  response = some (Proto.request_headers (build_headers_response mock.epp_upstream mock.bbr_model));
}

abbrev pub body_resp : ExtProcMock → Bytes → ProcessingResponse
body_resp mock current_bbr_model = record {
  response = some (Proto.request_body (build_body_response mock.epp_upstream current_bbr_model));
}

-- The task's variables at its start.
abbrev pub fresh : {Status : Type 0} → ExtProcMock → ℕ → Task Status
fresh mock taken = record {
  sent_headers_response = false;
  body_buf = [];
  current_bbr_model = mock.bbr_model;
  out = [];
  taken = taken;
}

module _ {Status : Type 0} (json : Json) (from_slice : Bytes → Option json.Value)
    (mock : ExtProcMock) where
  -- After the headers' reply.
  abbrev mark_sent : Task Status × Bool → Task Status × Bool
  mark_sent (t, good) = (if good then record t { sent_headers_response = true } else t, good)

  unfoldable pub on_headers : Task Status → Task Status × Bool
  unfolding send
  on_headers t =
      if bytes_eq mock.role (bytes "EPP")
      then mark_sent (send (reply (headers_resp mock)) t)
      else (t, true)

  unfoldable pub on_body : HttpBody → Task Status → Task Status × Bool
  unfolding send
  on_body b t =
      let body_buf = t.body_buf ++ b.body in
      let model = detect json from_slice body_buf t.current_bbr_model in
      if b.end_of_stream
      then send (reply (body_resp mock model))
          (record t { body_buf = body_buf; current_bbr_model = model })
      else (record t { body_buf = body_buf }, true)

  -- One round of the loop, and whether it goes on.
  unfoldable pub on_inbound : Inbound Status → Task Status → Task Status × Bool
  unfolding on_headers on_body send
  on_inbound (request_headers message) t = on_headers t
  on_inbound (request_body b) t = on_body b t
  on_inbound other t = (t, true)
  on_inbound (failure s) t = ((send (status s) t).0, false)

  -- After the loop.
  unfoldable pub after_loop : Task Status → Task Status
  unfolding send
  after_loop t =
      if not t.sent_headers_response && bytes_eq mock.role (bytes "EPP")
      then (send (reply (headers_resp mock)) t).0
      else t

  -- The loop over a stream that the client closes after the messages, and what follows it.
  unfoldable pub run : List (Inbound Status) → Task Status → Task Status
  unfolding on_inbound after_loop
  run [] t = after_loop t
  run (m ∷ more) t =
      let (t', go_on) = on_inbound m t in
      let rest = run more t' in if go_on then rest else after_loop t'

  -- `process`: what is sent to a client that takes the given number of replies.
  unfoldable pub process : ℕ → List (Inbound Status) → List (Item Status)
  unfolding run
  process taken inbound = (run inbound (fresh mock taken)).out

-- The program's surroundings: its first argument, `env::var`, and the port that `parse` finds in an
-- address.
pub record Env : Type 0 where
  pub arg : Option Bytes
  pub var : Bytes → Option Bytes
  pub parse_port : Bytes → Option ℕ

abbrev pub unwrap_or : Option Bytes → Bytes → Bytes
unwrap_or none d = d
unwrap_or (some s) d = s

abbrev default_role : ℕ → Bytes
default_role port =
    if port == 9001 then bytes "EPP" else if port == 9000 then bytes "BBR" else bytes "EPP"

-- The service that `main` starts, unless the address cannot be parsed.
unfoldable pub main : Env → Option ExtProcMock
main env = elim (env.parse_port (unwrap_or env.arg (bytes "0.0.0.0:9001"))) [
  | none ↦ none
  | some port ↦ some (record {
    epp_upstream = unwrap_or (env.var (bytes "EPP_UPSTREAM")) (bytes "host.docker.internal:18080");
    bbr_model = unwrap_or (env.var (bytes "BBR_MODEL")) (bytes "bbr-chosen-model");
    role = unwrap_or (env.var (bytes "MOCK_ROLE")) (default_role port);
  })
]

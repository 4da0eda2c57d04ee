-- ===== src/Grpc/Proto.antt =====
-- The messages of the ext-proc protocol (proto/envoy/...), reduced to the fields that src/grpc.rs
-- reads or sets. The Rust types are generated from those files.
use ngx_inference.Prelude.{Bool, List, Option}
use ngx_inference.Text.{Bytes}

pub record HeaderValue : Type 0 where
  pub key : Bytes
  pub value : Bytes
  pub raw_value : Bytes

pub record HeaderValueOption : Type 0 where
  pub header : Option HeaderValue

pub record HeaderMutation : Type 0 where
  pub set_headers : List HeaderValueOption

pub record CommonResponse : Type 0 where
  pub header_mutation : Option HeaderMutation

-- `HeadersResponse` and `BodyResponse` have the same field.
pub record PhaseResponse : Type 0 where
  pub response : Option CommonResponse

pub record TrailersResponse : Type 0 where
  pub header_mutation : Option HeaderMutation

pub record ImmediateResponse : Type 0 where
  pub headers : Option HeaderMutation

-- The `response` of a `ProcessingResponse`.
pub data Response : Type 0 where
  request_headers response_headers request_body response_body : PhaseResponse → Response
  request_trailers response_trailers : TrailersResponse → Response
  immediate_response : ImmediateResponse → Response

pub record ProcessingResponse : Type 0 where
  pub response : Option Response

-- `BodySendMode`, of which only `None` is sent.
pub data BodySendMode : Type 0 where
  mode_none : BodySendMode

pub record ProtocolConfiguration : Type 0 where
  pub request_body_mode : BodySendMode
  pub response_body_mode : BodySendMode
  pub send_body_without_waiting_for_header_response : Bool

-- A `ProcessingRequest` whose `request` is `RequestHeaders`. The metadata context is the list of
-- the names in `filter_metadata`, each with an empty structure.
pub record ProcessingRequest : Type 0 where
  pub headers : List HeaderValue
  pub end_of_stream : Bool
  pub filter_metadata : List Bytes
  pub observability_mode : Bool
  pub protocol_config : ProtocolConfiguration

-- ===== src/Grpc/Mutation.antt =====
-- The header that the endpoint picker selects, out of one response: the functions of src/grpc.rs
-- that write no log, `extract_header_from_mutation_async` and `parse_response_for_header_async`.
use ngx_inference.Prelude.{◌≡◌, refl, List, [], ◌∷◌, Option, none, some, arith, if◌then◌else◌}
use ngx_inference.Text.{Bytes, is_empty, eq_ignore_ascii_case, to_ascii_lowercase}
use ngx_inference.Text.Case.{eq_ignore_ascii_case-lowercase}
use ngx_inference.Utf8.{from_utf8_lossy}
use ngx_inference.Grpc.Proto.{
  HeaderValue, HeaderValueOption, HeaderMutation, PhaseResponse, request_headers, response_headers,
  request_body, response_body, request_trailers, response_trailers, immediate_response,
  ProcessingResponse,
}

-- The loop over `set_headers`.
unfoldable pub search_headers : List HeaderValueOption → Bytes → Option Bytes
search_headers [] key = none
search_headers (hvo ∷ rest) key =
    let later = search_headers rest key in
    elim hvo.header [
      | none ↦ later
      | some hdr ↦
          if eq_ignore_ascii_case hdr.key key
          then (if is_empty hdr.value
              then (if is_empty hdr.raw_value then later else some (from_utf8_lossy hdr.raw_value))
              else some hdr.value)
          else later
    ]

unfoldable pub extract_header_from_mutation_async : HeaderMutation → Bytes → Option Bytes
extract_header_from_mutation_async mutation key = search_headers mutation.set_headers key

abbrev in_mutation : Option HeaderMutation → Bytes → Option Bytes
in_mutation none key = none
in_mutation (some hm) key = extract_header_from_mutation_async hm key

abbrev in_phase : PhaseResponse → Bytes → Option Bytes
in_phase hdrs key = elim hdrs.response [
  | none ↦ none
  | some common ↦ in_mutation common.header_mutation key
]

unfoldable pub parse_response_for_header_async : ProcessingResponse → Bytes → Option Bytes
parse_response_for_header_async resp key = elim resp.response [
  | none ↦ none
  | some (request_headers hdrs) ↦ in_phase hdrs key
  | some (response_headers hdrs) ↦ in_phase hdrs key
  | some (request_body body) ↦ in_phase body key
  | some (response_body body) ↦ in_phase body key
  | some (request_trailers tr) ↦ in_mutation tr.header_mutation key
  | some (response_trailers tr) ↦ in_mutation tr.header_mutation key
  | some (immediate_response ir) ↦ in_mutation ir.headers key
]

-- Reference: the value that one entry offers for the name, the text before the raw bytes.
abbrev pub offered : Bytes → HeaderValue → Option Bytes
offered key hdr =
    if eq_ignore_ascii_case hdr.key key
    then (if is_empty hdr.value
        then (if is_empty hdr.raw_value then none else some (from_utf8_lossy hdr.raw_value))
        else some hdr.value)
    else none

abbrev push : Option Bytes → List Bytes → List Bytes
push none vs = vs
push (some v) vs = v ∷ vs

abbrev offers : Bytes → HeaderValueOption → List Bytes → List Bytes
offers key hvo vs = elim hvo.header [ none ↦ vs | some hdr ↦ push (offered key hdr) vs ]

-- All the values that a mutation offers, in order.
abbrev pub all_offered : Bytes → List HeaderValueOption → List Bytes
all_offered key [] = []
all_offered key (hvo ∷ rest) = offers key hvo (all_offered key rest)

abbrev pub first : List Bytes → Option Bytes
first [] = none
first (v ∷ vs) = some v

abbrev common_mutation : PhaseResponse → Option HeaderMutation
common_mutation hdrs = elim hdrs.response [ none ↦ none | some common ↦ common.header_mutation ]

-- The mutation a response carries, wherever it stands in it.
abbrev pub mutation_of : ProcessingResponse → Option HeaderMutation
mutation_of resp = elim resp.response [
  | none ↦ none
  | some (request_headers hdrs) ↦ common_mutation hdrs
  | some (response_headers hdrs) ↦ common_mutation hdrs
  | some (request_body body) ↦ common_mutation body
  | some (response_body body) ↦ common_mutation body
  | some (request_trailers tr) ↦ tr.header_mutation
  | some (response_trailers tr) ↦ tr.header_mutation
  | some (immediate_response ir) ↦ ir.headers
]

search_headers_lem :
    (hs : List HeaderValueOption) (key : Bytes) → search_headers hs key ≡ first (all_offered key hs)
unfolding search_headers
search_headers_lem [] key = refl
search_headers_lem (hvo ∷ rest) key = ground (arith, search_headers_lem rest key)

abbrev pub set_headers_of : ProcessingResponse → List HeaderValueOption
set_headers_of resp = elim (mutation_of resp) [ none ↦ [] | some hm ↦ hm.set_headers ]

-- The header taken from a response is the first value that its mutation offers under the name, for
-- every kind of response, immediate ones included.
pub parse_response_first :
    (resp : ProcessingResponse) (key : Bytes)
    → parse_response_for_header_async resp key ≡ first (all_offered key (set_headers_of resp))
unfolding parse_response_for_header_async extract_header_from_mutation_async
parse_response_first resp key = grind (arith, search_headers_lem)

-- The case of the sought name does not matter, so it is right to fold it to lower case first.
search_headers-lowercase :
    (hs : List HeaderValueOption) (key : Bytes)
    → search_headers hs (to_ascii_lowercase key) ≡ search_headers hs key
unfolding search_headers
search_headers-lowercase [] key = refl
search_headers-lowercase (hvo ∷ rest) key =
    grind (arith, eq_ignore_ascii_case-lowercase, search_headers-lowercase rest key)

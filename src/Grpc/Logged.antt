-- ===== src/Grpc/Logged.antt =====
-- The functions of src/grpc.rs that also write debug lines: `extract_header_from_mutation` and
-- `parse_response_for_header`. Each line is a value, and a function returns the lines that it wrote
-- with its result.
use ngx_inference.Prelude.{
  ℕ, suc, ◌≡◌, refl, List, [], ◌∷◌, ◌++◌, Option, none, some, arith, length, if◌then◌else◌,
}
use ngx_inference.Text.{Bytes, is_empty, eq_ignore_ascii_case}
use ngx_inference.Utf8.{from_utf8_lossy}
use ngx_inference.Grpc.Proto.{
  HeaderValueOption, HeaderMutation, PhaseResponse, request_headers, response_headers, request_body,
  response_body, request_trailers, response_trailers, immediate_response, ProcessingResponse,
}
use ngx_inference.Grpc.Mutation.{
  search_headers, extract_header_from_mutation_async, parse_response_for_header_async,
}

-- The kind of response that a line names.
pub data Kind : Type 0 where
  of_request_headers of_response_headers of_request_body of_response_body : Kind
  of_request_trailers of_response_trailers of_immediate_response : Kind

pub data LogLine : Type 0 where
  searching : Bytes → ℕ → LogLine
  listed : ℕ → Bytes → Bytes → ℕ → LogLine
  comparing : Bytes → Bytes → LogLine
  found_value found_raw_value : Bytes → LogLine
  no_value : LogLine
  not_in_mutation : Bytes → LogLine
  parsing : Bytes → LogLine
  processing : Kind → LogLine
  mutation_with : ℕ → LogLine
  no_mutation no_common : Kind → LogLine
  no_content not_in_response : LogLine

-- A result, behind the lines written on the way to it.
abbrev pub Logged : Type 0
Logged = List LogLine × Option Bytes

abbrev log : LogLine → Logged → Logged
log line (lines, result) = (line ∷ lines, result)

abbrev logs : List LogLine → Logged → Logged
logs before (lines, result) = (before ++ lines, result)

-- The first loop: all headers, for debugging.
list_headers : ℕ → List HeaderValueOption → List LogLine
list_headers i [] = []
list_headers i (hvo ∷ rest) =
    let later = list_headers (suc i) rest in
    elim hvo.header [
      | none ↦ later
      | some hdr ↦ listed i hdr.key hdr.value (length hdr.raw_value) ∷ later
    ]

-- The second loop.
search_logged : List HeaderValueOption → Bytes → Logged
search_logged [] key = (not_in_mutation key ∷ [], none)
search_logged (hvo ∷ rest) key =
    let later = search_logged rest key in
    elim hvo.header [
      | none ↦ later
      | some hdr ↦ log (comparing hdr.key key) (
          if eq_ignore_ascii_case hdr.key key
          then (if is_empty hdr.value
              then (if is_empty hdr.raw_value then log no_value later else (
                found_raw_value (from_utf8_lossy hdr.raw_value) ∷ [],
                some (from_utf8_lossy hdr.raw_value),
              ))
              else (found_value hdr.value ∷ [], some hdr.value))
          else later)
    ]

unfoldable pub extract_header_from_mutation : HeaderMutation → Bytes → Logged
unfolding list_headers search_logged
extract_header_from_mutation mutation key =
    log (searching key (length mutation.set_headers))
      (logs (list_headers 0 mutation.set_headers) (search_logged mutation.set_headers key))

-- The end of `parse_response_for_header`, where no branch has returned.
abbrev missed : LogLine → Logged
missed line = (line ∷ not_in_response ∷ [], none)

abbrev from_mutation : Kind → Option HeaderMutation → Bytes → Logged
from_mutation kind none key = missed (no_mutation kind)
from_mutation kind (some hm) key =
    log (mutation_with (length hm.set_headers)) (extract_header_from_mutation hm key)

abbrev from_phase : Kind → PhaseResponse → Bytes → Logged
from_phase kind hdrs key = elim hdrs.response [
  | none ↦ missed (no_common kind)
  | some common ↦ from_mutation kind common.header_mutation key
]

unfoldable pub parse_response_for_header : ProcessingResponse → Bytes → Logged
parse_response_for_header resp key = log (parsing key) (elim resp.response [
  | none ↦ missed no_content
  | some (request_headers hdrs) ↦
      log (processing of_request_headers) (from_phase of_request_headers hdrs key)
  | some (response_headers hdrs) ↦
      log (processing of_response_headers) (from_phase of_response_headers hdrs key)
  | some (request_body body) ↦
      log (processing of_request_body) (from_phase of_request_body body key)
  | some (response_body body) ↦
      log (processing of_response_body) (from_phase of_response_body body key)
  | some (request_trailers tr) ↦
      log (processing of_request_trailers)
        (from_mutation of_request_trailers tr.header_mutation key)
  | some (response_trailers tr) ↦
      log (processing of_response_trailers)
        (from_mutation of_response_trailers tr.header_mutation key)
  | some (immediate_response ir) ↦
      log (processing of_immediate_response) (from_mutation of_immediate_response ir.headers key)
])

search_logged_result :
    (hs : List HeaderValueOption) (key : Bytes) → (search_logged hs key).1 ≡ search_headers hs key
unfolding search_logged search_headers
search_logged_result [] key = refl
search_logged_result (hvo ∷ rest) key = ground (arith, search_logged_result rest key)

extract_result :
    (hm : HeaderMutation) (key : Bytes)
    → (extract_header_from_mutation hm key).1 ≡ extract_header_from_mutation_async hm key
unfolding extract_header_from_mutation extract_header_from_mutation_async
extract_result hm key = search_logged_result hm.set_headers key

-- The two copies of the parser agree: the one that logs returns what the one without logs returns.
pub parse_response_agree :
    (resp : ProcessingResponse) (key : Bytes)
    → (parse_response_for_header resp key).1 ≡ parse_response_for_header_async resp key
unfolding parse_response_for_header parse_response_for_header_async
parse_response_agree resp key = grind (arith, extract_result)

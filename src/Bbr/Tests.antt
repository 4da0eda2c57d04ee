-- ===== src/Bbr/Tests.antt =====
-- Body-based routing on concrete requests.
use ngx_inference.Prelude.{
  ℕ, ℤ, negsuc, ◌≤◌, ap, ◌-◌, min, take, drop, length, length-take, ◌≡◌, ◌⊎◌, refl, true, [], ◌∷◌,
  ◌++◌, some, pos, List, arith,
}
use ngx_inference.Text.{Bytes, bytes, eq_ignore_ascii_case, lower, starts_with, bytes_eq}
use ngx_inference.Utf8.{is_utf8, from_utf8}
use ngx_inference.Nginx.{
  Request, special_response, finalize, run_phases, clear_post_handler, ngx_declined, ngx_done,
  ngx_error,
}
use ngx_inference.Nginx.Headers.{get_header_in}
use ngx_inference.Body.Parts.{Part, in_memory, bufs_of}
use ngx_inference.Model.{extract_model_from_body, extract_model_string}
use ngx_inference.Bbr.{bbr_header, body_read_handler, start_body_reading, process_request}
use ngx_inference.Bbr.Body.{body, read_request_body, entity_too_large}
use ngx_inference.Body.Bounds.{RespectsCount}
use ngx_inference.Bbr.Bounded.{read_request_body_bounded}
use ngx_inference.Bbr.Limit.{read_request_body_lem, expected_body}
use ngx_inference.Bbr.Handler.{HasBody, handler_too_large, handler_empty, handler_sets_header}
use ngx_inference.Bbr.Once.{process_request_status, shadowed_reads_again}
use ngx_inference.Fixtures.{
  parts-AllSound, chat_has_body, disk, model_json, roomy_nginx, roomy_nginx-AddsHeader,
  roomy_nginx-room, roomy_nginx-ReadsFile, short_pread, stored_file, parts, request_with,
  chat_request, open_config, tight_config,
}

short_within :
    (fd : ℤ) (count : ℕ) (offset : ℤ) (bs : Bytes)
    → short_pread fd count offset ≡ some bs
    → length bs ≤ count
unfolding short_pread
short_within fd count (pos at) bs e =
    let n = min 4 (min count (length stored_file - at)) in
    let same : take n (drop at stored_file) ≡ bs = cc in
    rw (← same) (omega (arith, length-take n (drop at stored_file)))
short_within fd count (negsuc n) bs e = cc

abbrev chat_body : Bytes
chat_body = bytes "{\"model\":\"llama\"}"

read_request_body_lem_example :
    read_request_body roomy_nginx open_config chat_request
    ≡ expected_body open_config.max_body_size disk parts chat_request
read_request_body_lem_example =
    read_request_body_lem roomy_nginx disk open_config chat_request parts (pos 0) true
      roomy_nginx-ReadsFile (omega arith) parts-AllSound refl

roomy-RespectsCount : RespectsCount roomy_nginx.pread
unfolding roomy_nginx short_pread
roomy-RespectsCount = record { within = short_within }

chat_is_read : (read_request_body roomy_nginx open_config chat_request).1 ≡ body chat_body
chat_is_read = ap (λ p. p.1) read_request_body_lem_example

read_request_body_bounded_example : length chat_body ≤ 10485760
read_request_body_bounded_example =
    read_request_body_bounded roomy_nginx open_config chat_request chat_body roomy-RespectsCount
      (omega arith) chat_is_read

handler_too_large_example :
    body_read_handler roomy_nginx model_json (some tight_config) chat_request
    ≡ record chat_request {
      status = entity_too_large;
      request_body = clear_post_handler chat_request.request_body;
      calls = special_response entity_too_large ∷ finalize (pos entity_too_large) ∷ [];
    }
unfolding bbr_header is_utf8 eq_ignore_ascii_case lower
handler_too_large_example =
    handler_too_large roomy_nginx model_json disk tight_config parts chat_request chat_has_body
      (omega arith) refl (omega arith)

abbrev empty_part : List Part
empty_part = in_memory 4096 [] ∷ []

empty-HasBody : HasBody roomy_nginx disk empty_part (request_with (bufs_of empty_part))
empty-HasBody = record {
  rest = pos 0;
  post_handler = true;
  files = roomy_nginx-ReadsFile;
  sound = (ground arith, tt);
  complete = refl;
  stored = refl;
}

handler_empty_example :
    let r = request_with (bufs_of empty_part) in
    body_read_handler roomy_nginx model_json (some open_config) r
    ≡ record r { request_body = clear_post_handler r.request_body }
unfolding bbr_header is_utf8 eq_ignore_ascii_case lower
handler_empty_example =
    handler_empty roomy_nginx model_json disk open_config empty_part
      (request_with (bufs_of empty_part)) empty-HasBody (omega arith) refl refl (omega arith)

handler_sets_header_example :
    body_read_handler roomy_nginx model_json (some open_config) chat_request ≡ record chat_request {
      headers_in =
          (bytes "Host", bytes "example.org") ∷ (bytes "X-Gateway-Model-Name", bytes "llama") ∷ [];
      request_body = clear_post_handler chat_request.request_body;
      calls = run_phases ∷ [];
    }
unfolding bbr_header is_utf8 from_utf8 eq_ignore_ascii_case lower extract_model_from_body model_json
    starts_with bytes_eq
handler_sets_header_example =
    handler_sets_header roomy_nginx roomy_nginx-AddsHeader roomy_nginx-room model_json open_config
      disk parts chat_request chat_has_body (omega arith) refl (omega arith) refl

process_request_status_example :
    let s = (process_request roomy_nginx model_json open_config chat_request).1 in
    (s ≡ ngx_declined) ⊎ ((s ≡ ngx_done) ⊎ (s ≡ ngx_error))
process_request_status_example =
    process_request_status roomy_nginx model_json open_config chat_request

-- A client sends the header itself, with a byte that is never part of UTF-8.
abbrev shadowed : Request
shadowed = record chat_request { headers_in = (bytes "x-gateway-model-name", 0xff ∷ []) ∷ [] }

shadowed_reads_again_example :
    let r' = record shadowed {
      headers_in = shadowed.headers_in ++ ((bytes "X-Gateway-Model-Name", bytes "llama") ∷ []);
    } in
    process_request roomy_nginx model_json open_config r'
    ≡ start_body_reading roomy_nginx model_json open_config r'
unfolding bbr_header is_utf8 from_utf8 eq_ignore_ascii_case lower get_header_in
shadowed_reads_again_example =
    shadowed_reads_again roomy_nginx model_json open_config shadowed
      ((bytes "X-Gateway-Model-Name", bytes "llama") ∷ []) refl refl refl

extract_model_string_example :
    extract_model_from_body model_json (bytes "{\"model\":\"\"}") ≡ some []
unfolding is_utf8 from_utf8 model_json starts_with bytes_eq
extract_model_string_example =
    extract_model_string model_json (bytes "{\"model\":\"\"}") [] refl refl refl refl

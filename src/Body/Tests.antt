-- ===== src/Body/Tests.antt =====
-- The body readers on a chain that is broken: a file whose range is reversed, which cannot be read.
use ngx_inference.Prelude.{◌≢◌, [], ◌∷◌, none, some, pos}
use ngx_inference.Nginx.{Buf, Request}
use ngx_inference.Body.{unfinished}
use ngx_inference.Body.Ends.{body_readers_end}
use ngx_inference.Bbr.Body.{diverged, read_request_body}
use ngx_inference.Epp.Body.{extract_request_body}
use ngx_inference.Fixtures.{roomy_nginx, request_with, open_config}

abbrev reversed_file : Buf
reversed_file = record {
  start = none;
  last = none;
  content = [];
  file = some (pos 7);
  file_pos = pos 12;
  file_last = pos 5;
}

abbrev broken_request : Request
broken_request = request_with (some reversed_file ∷ [])

body_readers_end_example :
    ((read_request_body roomy_nginx open_config broken_request).1 ≢ diverged)
    × (extract_request_body (λ fd count offset. none) (some open_config) broken_request
        ≢ unfinished)
body_readers_end_example =
    body_readers_end roomy_nginx open_config (λ fd count offset. none) (some open_config)
      broken_request

-- ===== src/Fixtures.antt =====
-- Concrete data for the tests: a file on disk, a JSON reader for one shape of body, an nginx, a
-- request, configurations, and a gRPC peer.
pub mod Peer
pub mod Calls
use ngx_inference.Prelude.{
  ℕ, ◌-◌, ◌≡◌, refl, true, List, [], ◌∷◌, ◌++◌, Option, none, some, ℤ, pos, negsuc, arith, min,
  length, take, drop, if◌then◌else◌,
}
use ngx_inference.Text.{Bytes, bytes, starts_with, bytes_eq}
use ngx_inference.Utf8.{from_utf8}
use ngx_inference.Config.{ModuleConfig, default_config}
use ngx_inference.Nginx.{Buf, Request, Nginx, AddsHeader, core_run_phases}
use ngx_inference.Body.Chunks.{ReadsFile}
use ngx_inference.Body.Parts.{Part, in_memory, in_file, bufs_of, AllSound}
use ngx_inference.Bbr.Handler.{HasBody}
use ngx_inference.Epp.Failure.{Pool}
use ngx_inference.Epp.Start.{Host}
use ngx_inference.Model.{Json, TextIsUtf8}

-- The file that every descriptor stands for, and a `pread` that returns at most four bytes a time.
abbrev pub stored_file : Bytes
stored_file = bytes "...llama\"}"

abbrev pub disk : ℤ → Bytes
disk fd = stored_file

unfoldable pub short_pread : ℤ → ℕ → ℤ → Option Bytes
short_pread fd count (pos offset) =
    some (take (min 4 (min count (length stored_file - offset))) (drop offset stored_file))
short_pread fd count (negsuc n) = none

pub short_pread-ReadsFile : (fd : ℤ) → ReadsFile short_pread fd (disk fd)
unfolding short_pread
short_pread-ReadsFile fd = record {
  reads = λ count offset p q. (
    min 4 (min count (length stored_file - offset)),
    omega arith,
    omega arith,
    omega arith,
    refl,
  );
}

-- A JSON reader for objects with the one member `model`, whose value is a text.
abbrev pub object_start : Bytes
object_start = bytes "{\"model\":\""

unfoldable pub model_json : Json
model_json = record {
  Value = Bytes;
  from_str =
      λ s. if starts_with object_start s then some (take (length s - 12) (drop 10 s)) else none;
  get = λ v key. if bytes_eq key (bytes "model") then some v else none;
  as_str = from_utf8;
}

pub model_json-TextIsUtf8 : TextIsUtf8 model_json
unfolding model_json from_utf8
model_json-TextIsUtf8 = record { as_str-utf8 = λ v s h. ground arith }

-- An nginx that always has room for a header, and whose body is there at once.
unfoldable pub roomy_nginx : Nginx
unfolding short_pread
roomy_nginx = record {
  pread = short_pread;
  add_header_in = λ k v r. (record r { headers_in = r.headers_in ++ ((k, v) ∷ []) }, true);
  read_client_request_body = λ handler r. (handler r, pos 0);
}

pub roomy_nginx-AddsHeader : AddsHeader roomy_nginx
unfolding roomy_nginx
roomy_nginx-AddsHeader = record { added = λ k v r h. refl; not_added = λ k v r h. ground arith }

pub roomy_nginx-room : (k v : Bytes) (r : Request) → (roomy_nginx.add_header_in k v r).1 ≡ true
unfolding roomy_nginx
roomy_nginx-room k v r = refl

pub roomy_nginx-ReadsFile : (fd : ℤ) → ReadsFile roomy_nginx.pread fd (disk fd)
unfolding roomy_nginx
roomy_nginx-ReadsFile fd = short_pread-ReadsFile fd

-- The body {"model":"llama"}, the first ten bytes in memory and the others in a file.
abbrev pub parts : List Part
parts = in_memory 4096 object_start ∷ in_file (pos 7) 3 7 ∷ []

abbrev pub request_with : List (Option Buf) → Request
request_with bufs = record {
  headers_in = (bytes "Host", bytes "example.org") ∷ [];
  status = 0;
  request_body = some (record { bufs = bufs; rest = pos 0; post_handler = true });
  write_event_handler = core_run_phases;
  connection = true;
  count = 1;
  calls = [];
}

abbrev pub chat_request : Request
chat_request = request_with (bufs_of parts)

-- Both stages on, the second failing open with a default upstream.
abbrev pub open_config : ModuleConfig
open_config = record default_config {
  bbr_enable = true;
  epp_enable = true;
  epp_endpoint = some (bytes "epp:9002");
  epp_failure_mode_allow = true;
  default_upstream = some (bytes "10.0.0.1:80");
}

-- A limit of 8 bytes.
abbrev pub tight_config : ModuleConfig
tight_config = record open_config { max_body_size = 8 }

pub parts-AllSound : AllSound disk parts
parts-AllSound = (ground arith, ((ground arith, ground arith, ground arith), tt))

abbrev pub chat_has_body : HasBody roomy_nginx disk parts chat_request
chat_has_body = record {
  rest = pos 0;
  post_handler = true;
  files = roomy_nginx-ReadsFile;
  sound = parts-AllSound;
  complete = refl;
  stored = refl;
}

abbrev pub roomy_pool : Pool
roomy_pool = record { name_fits = true; value_fits = true; entry_fits = true }

abbrev pub roomy_host : Host
roomy_host = record {
  pread = short_pread;
  read_client_request_body = λ handler job. (handler job, pos 0);
  eventfd = pos 9;
  event_fits = true;
  pool = roomy_pool;
  now = 1000;
}

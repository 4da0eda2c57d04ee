-- ===== src/Fixtures/Calls.antt =====
-- A request for which a pass can make a call, and a variable that has not been evaluated.
use ngx_inference.Prelude.{ℕ, ◌≤◌, ◌≡◌, refl, ◌∙◌, false, true, none, some, pos, arith}
use ngx_inference.Text.{Bytes, bytes}
use ngx_inference.Config.{ModuleConfig}
use ngx_inference.Nginx.Headers.{get_header_in}
use ngx_inference.Epp.Context.{configured_endpoint, epp_header}
use ngx_inference.Epp.Limit.{extract_request_body_lem}
use ngx_inference.Epp.Start.{Host}
use ngx_inference.Epp.Failure.{upstream}
use ngx_inference.Grpc.Stream.{finished}
use ngx_inference.Variable.{VariableValue}
use ngx_inference.Access.Repeat.{CanCall, needs_bbr}
use ngx_inference.Fixtures.{
  short_pread, short_pread-ReadsFile, parts-AllSound, roomy_host, disk, parts, chat_request,
}

abbrev pub endpoint : Bytes
endpoint = bytes "epp:9002"

abbrev pub host_at : ℕ → ℕ → Host
host_at fd now = record roomy_host { eventfd = pos fd; now = now }

pub chat-CanCall :
    (conf : ModuleConfig) (fd now : ℕ)
    → needs_bbr conf chat_request ≡ false
    → conf.epp_enable ≡ true
    → configured_endpoint conf ≡ some endpoint
    → get_header_in chat_request.headers_in (epp_header conf) ≡ none
    → 17 ≤ conf.max_body_size
    → CanCall (host_at fd now) conf endpoint fd chat_request
chat-CanCall conf fd now bbr_done on chosen unset small = record {
  content = bytes "{\"model\":\"llama\"}";
  total = 17;
  body = _;
  bbr_done = bbr_done;
  epp_on = on;
  chosen = chosen;
  unset = unset;
  fine = refl;
  connected = refl;
  there = refl;
  complete = refl;
  descriptor = refl;
  event = refl;
  readable =
      extract_request_body_lem short_pread disk (some conf) chat_request parts (pos 0) true
        short_pread-ReadsFile parts-AllSound (omega arith) refl
      ∙ ground (arith, small);
}

abbrev pub no_value : VariableValue
no_value = record {
  text = none;
  valid = false;
  no_cacheable = false;
  escape = false;
  not_found = false;
}

pub some_injective : {a b : Bytes} → some a ≡ some b → a ≡ b
some_injective e = cc

pub found_injective : {a b : Bytes} → finished (upstream a) ≡ finished (upstream b) → a ≡ b
found_injective e = cc

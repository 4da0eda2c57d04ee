-- ===== src/Epp/Context.antt =====
-- src/epp/context.rs: what one EPP call carries, and the watcher that waits for its result.
use ngx_inference.Prelude.{
  ℕ, ◌-◌, Bool, ◌&&◌, List, [], ◌∷◌, Option, none, some, ℤ, pos, negsuc, ltb, if◌then◌else◌,
}
use ngx_inference.Text.{Bytes, is_empty}
use ngx_inference.Utf8.{is_utf8}
use ngx_inference.Config.{ModuleConfig, upstream_header_name}

pub record AsyncEppContext : Type 0 where
  pub endpoint : Bytes
  pub upstream_header : Bytes
  pub timeout_ms : ℕ
  pub headers : List (Bytes × Bytes)
  pub use_tls : Bool
  pub ca_file : Option Bytes
  pub failure_mode_allow : Bool
  pub default_upstream : Option Bytes

-- `ResultWatcher`; the request pointer and the receiver are kept in the state of `Epp.Timer`.
pub record ResultWatcher : Type 0 where
  pub ctx : AsyncEppContext
  pub start_time_ms : ℕ
  pub eventfd : ℤ

-- `ResultWatcher::new`, at the time `now`.
unfoldable pub new_watcher : AsyncEppContext → ℤ → ℕ → ResultWatcher
new_watcher ctx eventfd now = record { ctx = ctx; start_time_ms = now; eventfd = eventfd }

-- `is_timed_out`, at the time `now`; `saturating_sub` is `-`.
unfoldable pub is_timed_out : ResultWatcher → ℕ → Bool
is_timed_out w now = ltb w.ctx.timeout_ms (now - w.start_time_ms)

-- `create_eventfd`, from what `libc::eventfd` returns.
unfoldable pub create_eventfd : ℤ → Option ℤ
create_eventfd (pos fd) = some (pos fd)
create_eventfd (negsuc e) = none

-- The headers whose name and value are UTF-8.
unfoldable pub collect_headers : List (Bytes × Bytes) → List (Bytes × Bytes)
collect_headers [] = []
collect_headers ((name, value) ∷ hs) =
    let rest = collect_headers hs in
    if is_utf8 name && is_utf8 value then (name, value) ∷ rest else rest

-- The header that EPP sets.
unfoldable pub epp_header : ModuleConfig → Bytes
epp_header conf =
    if is_empty conf.epp_header_name then upstream_header_name else conf.epp_header_name

-- The endpoint, where one is configured that is not empty.
unfoldable pub configured_endpoint : ModuleConfig → Option Bytes
configured_endpoint conf = elim conf.epp_endpoint [
  | none ↦ none
  | some e ↦ if is_empty e then none else some e
]

unfoldable pub make_context : ModuleConfig → Bytes → List (Bytes × Bytes) → AsyncEppContext
unfolding epp_header collect_headers
make_context conf endpoint headers_in = record {
  endpoint = endpoint;
  upstream_header = epp_header conf;
  timeout_ms = conf.epp_timeout_ms;
  headers = collect_headers headers_in;
  use_tls = conf.epp_tls;
  ca_file = conf.epp_ca_file;
  failure_mode_allow = conf.epp_failure_mode_allow;
  default_upstream = conf.default_upstream;
}

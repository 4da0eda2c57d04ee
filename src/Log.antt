-- ===== src/Log.antt =====
-- The macros by which the module writes to nginx's error log (src/epp/callbacks.rs, src/grpc.rs,
-- src/modules/bbr.rs): each calls `ngx_log_error_core` once, or not at all.
pub mod Failure
pub mod Errors
mod Tests
use ngx_inference.Prelude.{Bool, List, [], ◌∷◌, Option, none, some, if◌then◌else◌}
use ngx_inference.Text.{Bytes}
use ngx_inference.Nginx.{Request}
use ngx_inference.Epp.Failure.{has_nul}

pub data Level : Type 0 where
  ngx_log_err ngx_log_warn ngx_log_info ngx_log_debug : Level

-- A call of `ngx_log_error_core`. Its format is the macro's whole message, and there are no arguments:
-- what nginx makes of it (it interprets `%`, and cuts a long line) is nginx's.
pub record LogCall : Type 0 where
  pub level : Level
  pub format : Bytes

-- The call on the log of the request's connection, with the message as a C string for the format.
abbrev log_core : Level → Request → Bytes → List LogCall
log_core level r message =
    if r.connection
    then (if has_nul message then [] else record { level = level; format = message } ∷ [])
    else []

abbrev log_pointer : Level → Option Request → Bytes → List LogCall
log_pointer level none message = []
log_pointer level (some r) message = log_core level r message

unfoldable pub ngx_log_error_raw : Option Request → Bytes → List LogCall
ngx_log_error_raw r message = log_pointer ngx_log_err r message

unfoldable pub ngx_log_debug_raw : Option Request → Bytes → List LogCall
ngx_log_debug_raw r message = log_pointer ngx_log_debug r message

unfoldable pub ngx_log_info_raw : Option Request → Bytes → List LogCall
ngx_log_info_raw r message = log_pointer ngx_log_info r message

unfoldable pub ngx_log_warn_raw : Option Request → Bytes → List LogCall
ngx_log_warn_raw r message = log_pointer ngx_log_warn r message

-- That of src/grpc.rs takes a pointer too, and that of src/modules/bbr.rs a reference.
unfoldable pub ngx_log_error_http : Option Request → Bytes → List LogCall
ngx_log_error_http r message = log_pointer ngx_log_err r message

unfoldable pub ngx_log_info_http : Request → Bytes → List LogCall
ngx_log_info_http r message = log_core ngx_log_info r message

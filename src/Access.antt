-- ===== src/Access.antt =====
-- `inference_access_handler` (src/lib.rs): body-based routing, then the endpoint picker.
pub mod Stages
pub mod Pipeline
pub mod Served
pub mod FirstPass
pub mod Routed
pub mod EndToEnd
pub mod Whole
pub mod Repeat
pub mod Retry
pub mod Failing
pub mod Fallback
pub mod Integration
pub mod Settled
pub mod BothStages
pub mod Shared
mod Tests
mod RoutedTests
mod FallbackTests
mod IntegrationTests
mod SettledTests
mod BothStagesTests
use ngx_inference.Prelude.{ℕ, ◌≡◌, refl, Bool, true, false, Option, none, some, ◌==◌, if◌then◌else◌}
use ngx_inference.Config.{ModuleConfig}
use ngx_inference.Nginx.{
  Request, Nginx, Status, ngx_ok, ngx_again, ngx_done, ngx_declined, ngx_error, http_status,
}
use ngx_inference.Model.{Json}
use ngx_inference.Bbr.{process_request, internal_server_error}
use ngx_inference.Bbr.Body.{entity_too_large}
use ngx_inference.Epp.Failure.{bad_gateway}
use ngx_inference.Epp.Start.{Job, Host, no_call}
use ngx_inference.Epp.Processor

-- What the handler makes of the status of the second stage.
unfoldable pub after_epp : ModuleConfig → Job × Status → Job × Status
after_epp conf (job, ngx_declined) = (job, ngx_declined)
after_epp conf (job, ngx_done) = (job, ngx_done)
after_epp conf (job, ngx_error) =
    if conf.epp_failure_mode_allow then (job, ngx_declined) else (job, http_status bad_gateway)
after_epp conf (job, ngx_ok) = (job, ngx_declined)
after_epp conf (job, ngx_again) = (job, ngx_declined)
after_epp conf (job, http_status n) = (job, ngx_declined)

unfoldable pub epp_stage : Host → ModuleConfig → Request → Job × Status
epp_stage host conf r =
    if conf.epp_enable
    then after_epp conf (Processor.process_request host conf r)
    else (no_call r, ngx_declined)

-- What the handler makes of the status of the first stage.
unfoldable pub after_bbr : Host → ModuleConfig → Request × Status → Job × Status
after_bbr host conf (r, ngx_done) = (no_call r, ngx_done)
after_bbr host conf (r, ngx_ok) =
    if r.status == entity_too_large then (no_call r, ngx_ok) else epp_stage host conf r
after_bbr host conf (r, ngx_error) = (no_call r, http_status internal_server_error)
after_bbr host conf (r, ngx_declined) = epp_stage host conf r
after_bbr host conf (r, ngx_again) = epp_stage host conf r
after_bbr host conf (r, http_status n) = epp_stage host conf r

unfoldable pub inference_access_handler :
    Nginx → Json → Host → Option ModuleConfig → Request → Job × Status
inference_access_handler ngx json host none r = (no_call r, http_status internal_server_error)
inference_access_handler ngx json host (some conf) r =
    if conf.bbr_enable
    then after_bbr host conf (process_request ngx json conf r)
    else epp_stage host conf r

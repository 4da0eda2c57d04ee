-- ===== src/Epp/Again.antt =====
-- The next pass of the access phase after an EPP call has ended: resuming the phases
-- (src/epp/callbacks.rs) runs the access handler, and so `EppProcessor::process_request`
-- (src/epp/mod.rs), once more.
use ngx_inference.Prelude.{
  ℕ, ◌≡◌, ◌∙◌, ap, true, false, List, [], ◌∷◌, ◌++◌, none, some, pos, arith, leb, eq_nat,
}
use ngx_inference.Text.{Bytes}
use ngx_inference.Utf8.{is_utf8}
use ngx_inference.Config.{ModuleConfig}
use ngx_inference.Body.{got}
use ngx_inference.Nginx.{
  Request, RequestBody, ngx_done, ngx_declined, call, run_phases, clear_post_handler,
}
use ngx_inference.Nginx.Headers.{get_header_in, has_name, get_header_in-added}
use ngx_inference.Epp.Body.{extract_request_body}
use ngx_inference.Epp.Context.{
  epp_header, configured_endpoint, make_context, create_eventfd, new_watcher,
}
use ngx_inference.Epp.Failure.{
  Pool, has_nul, set_upstream_header, set_default, handle_epp_failure, after_set,
  process_epp_result, upstream,
}
use ngx_inference.Epp.Timer.{start}
use ngx_inference.Epp.Start.{
  Host, no_call, process_with_existing_body, existing_call, start_call, setup_result_timer,
}
use ngx_inference.Epp.Processor.{process_request, with_endpoint, by_body, process_request_skips}

abbrev pub room : Pool
room = record { name_fits = true; value_fits = true; entry_fits = true }

skips_with_header :
    (host : Host) (conf : ModuleConfig) (r : Request) (value : Bytes)
    → get_header_in r.headers_in (epp_header conf) ≡ some value
    → process_request host conf r ≡ (no_call r, ngx_declined)
skips_with_header host conf r value h = process_request_skips host conf r (ground arith)

module _ (host : Host) (conf : ModuleConfig) (endpoint : Bytes)
    (sent_headers : List (Bytes × Bytes)) (r : Request) (bs : Bytes)
    (absent : has_name r.headers_in (epp_header conf) ≡ false)
    (name_utf8 : is_utf8 (epp_header conf) ≡ true) (bs_utf8 : is_utf8 bs ≡ true)
    (name_nul : has_nul (epp_header conf) ≡ false) (bs_nul : has_nul bs ≡ false) where
  result_sets :
      (process_epp_result room (make_context conf endpoint sent_headers) (upstream bs) r).headers_in
      ≡ r.headers_in ++ ((epp_header conf, bs) ∷ [])
  unfolding process_epp_result after_set set_upstream_header make_context
  result_sets = ground arith

  failure_sets :
      (code : ℕ)
      → conf.epp_failure_mode_allow ≡ true
      → conf.default_upstream ≡ some bs
      → (handle_epp_failure room (make_context conf endpoint sent_headers) code r).headers_in
        ≡ r.headers_in ++ ((epp_header conf, bs) ∷ [])
  unfolding handle_epp_failure set_default set_upstream_header make_context
  failure_sets code open_mode def = ground arith

  found : get_header_in (r.headers_in ++ ((epp_header conf, bs) ∷ [])) (epp_header conf) ≡ some bs
  found = get_header_in-added r.headers_in (epp_header conf) bs absent name_utf8 bs_utf8

  -- A call that brought an upstream, for a request without the header, is not made again: the
  -- next pass declines and leaves the request alone, when the pool has room and the header
  -- name and the upstream are UTF-8 and hold no zero byte.
  pub result_then_declines :
      let r' = process_epp_result room (make_context conf endpoint sent_headers) (upstream bs) r in
      process_request host conf r' ≡ (no_call r', ngx_declined)
  result_then_declines =
      skips_with_header host conf _ bs
        (ap (λ hs. get_header_in hs (epp_header conf)) result_sets ∙ found)

  -- A call that failed in fail-open mode with a default upstream, for a request without the
  -- header, is not made again: the next pass declines and leaves the request alone, when the
  -- pool has room and the header name and the default are UTF-8 and hold no zero byte.
  pub failure_then_declines :
      (code : ℕ)
      → conf.epp_failure_mode_allow ≡ true
      → conf.default_upstream ≡ some bs
      → let r' = handle_epp_failure room (make_context conf endpoint sent_headers) code r in
        process_request host conf r' ≡ (no_call r', ngx_declined)
  failure_then_declines code open_mode def =
      skips_with_header host conf _ bs
        (ap (λ hs. get_header_in hs (epp_header conf)) (failure_sets code open_mode def) ∙ found)

-- What such a failure leaves: the request as it was, but for its post handler and the resumption.
pub failure_leaves :
    (pool : Pool) (conf : ModuleConfig) (endpoint : Bytes) (hs : List (Bytes × Bytes)) (code : ℕ)
    (r : Request)
    → conf.epp_failure_mode_allow ≡ true
    → conf.default_upstream ≡ none
    → handle_epp_failure pool (make_context conf endpoint hs) code r
      ≡ call run_phases (record r { request_body = clear_post_handler r.request_body })
unfolding handle_epp_failure set_default make_context
failure_leaves pool conf endpoint hs code r open_mode none_set = ground arith

-- A request that EPP has not dealt with, whose body can be read, begins a call.
pub begins :
    (host : Host) (conf : ModuleConfig) (fd : ℕ) (endpoint body : Bytes) (total : ℕ)
    (b : RequestBody) (r : Request)
    → conf.epp_enable ≡ true
    → configured_endpoint conf ≡ some endpoint
    → get_header_in r.headers_in (epp_header conf) ≡ none
    → leb 300 r.status ≡ false
    → r.connection ≡ true
    → r.request_body ≡ some b
    → eq_nat b.rest 0 ≡ true
    → host.eventfd ≡ pos fd
    → host.event_fits ≡ true
    → extract_request_body host.pread (some conf) r ≡ got body total
    → process_request host conf r ≡ (
      record {
        request = r;
        world = some (
            start r host.pool
              (new_watcher (make_context conf endpoint r.headers_in) (pos fd) host.now));
      },
      ngx_done,
    )
unfolding process_request with_endpoint by_body process_with_existing_body existing_call
    create_eventfd start_call setup_result_timer
begins host conf fd endpoint body total b r on e absent early connected there complete eventfd fits
      reads =
    ground arith

-- A call that failed in fail-open mode with no default upstream resumes the phases with nothing
-- in the request that tells of it: when EPP is on with an endpoint, the header is not found, the
-- status is below 300, the connection is there, the body is there and can be read, and the
-- descriptor and the event are to be had, the next pass starts the call again.
pub failure_then_retries :
    (host : Host) (conf : ModuleConfig) (pool : Pool) (code fd : ℕ) (endpoint body : Bytes)
    (total : ℕ) (b : RequestBody) (r : Request)
    → conf.epp_enable ≡ true
    → configured_endpoint conf ≡ some endpoint
    → conf.epp_failure_mode_allow ≡ true
    → conf.default_upstream ≡ none
    → get_header_in r.headers_in (epp_header conf) ≡ none
    → leb 300 r.status ≡ false
    → r.connection ≡ true
    → r.request_body ≡ some b
    → eq_nat b.rest 0 ≡ true
    → host.eventfd ≡ pos fd
    → host.event_fits ≡ true
    → let r' = handle_epp_failure pool (make_context conf endpoint r.headers_in) code r in
      extract_request_body host.pread (some conf) r' ≡ got body total
      → process_request host conf r' ≡ (
        record {
          request = r';
          world = some (
              start r' host.pool
                (new_watcher (make_context conf endpoint r'.headers_in) (pos fd) host.now));
        },
        ngx_done,
      )
failure_then_retries host conf pool code fd endpoint body total b r on e open_mode none_set absent
      early connected there complete eventfd fits reads =
    let left = failure_leaves pool conf endpoint r.headers_in code r open_mode none_set in
    let r' = handle_epp_failure pool (make_context conf endpoint r.headers_in) code r in
    begins host conf fd endpoint body total (record b { post_handler = false }) r' on e
      (ground (arith, left)) (ground (arith, left)) (ground (arith, left)) (ground (arith, left))
      complete eventfd fits reads

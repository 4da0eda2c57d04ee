-- ===== src/Access/Pipeline.antt =====
-- Both stages of `inference_access_handler` (src/lib.rs) over one request: the body that the first
-- stage has read is there for the second.
use ngx_inference.Prelude.{
  ℕ, zero, suc, ◌+◌, ◌≤◌, ◌≡◌, ◌∙◌, refl, ap, true, false, List, [], ◌∷◌, ◌++◌, none, some, ℤ, pos,
  arith, leb, eq_nat,
}
use ngx_inference.Text.{Bytes, is_empty}
use ngx_inference.Utf8.{is_utf8}
use ngx_inference.Config.{ModuleConfig}
use ngx_inference.Nginx.{Request, Nginx, AddsHeader, ngx_done, clear_post_handler}
use ngx_inference.Nginx.Headers.{names, has_name, get_header_in, get_header_in-append}
use ngx_inference.Model.{Json, TextIsUtf8}
use ngx_inference.Body.{got, isize_max}
use ngx_inference.Body.Chunks.{ReadsFile}
use ngx_inference.Body.Parts.{
  Part, no_buffer, in_memory, in_file, bufs_of, all_contents, total_size,
}
use ngx_inference.Bbr.{bbr_header, body_read_handler}
use ngx_inference.Bbr.Handler.{HasBody, model_or_default, resumed, handler_sets_header}
use ngx_inference.Epp.Body.{extract_request_body}
use ngx_inference.Epp.Limit.{files_fit, extract_request_body_lem}
use ngx_inference.Epp.Context.{epp_header, configured_endpoint, make_context, new_watcher}
use ngx_inference.Epp.Timer.{start}
use ngx_inference.Epp.Start.{Host, Job}
use ngx_inference.Epp.Again.{begins}
use ngx_inference.Epp.Processor
use ngx_inference.Access.{after_epp, epp_stage, inference_access_handler}
use ngx_inference.Access.Stages.{second_pass_picks}

-- A body within the limit is within it at each of its files.
files_fit_small :
    (max total : ℕ) (ps : List Part) → total + total_size ps ≤ max → files_fit max total ps ≡ true
files_fit_small max total [] h = refl
files_fit_small max total (no_buffer ∷ ps) h = files_fit_small max total ps (omega arith)
files_fit_small max total (in_memory address bs ∷ ps) h =
    files_fit_small max (total + _) ps (omega arith)
files_fit_small max total (in_file fd at zero ∷ ps) h = files_fit_small max total ps (omega arith)
files_fit_small max total (in_file fd at (suc size) ∷ ps) h =
    ground (arith, files_fit_small max (total + suc size) ps (omega arith))

-- The name of one header is not that of an appended one.
pub get_header_in-other :
    (hs : List (Bytes × Bytes)) (key other value : Bytes)
    → has_name hs key ≡ false
    → names key other ≡ false
    → get_header_in (hs ++ ((other, value) ∷ [])) key ≡ none
unfolding get_header_in
get_header_in-other hs key other value absent differs =
    get_header_in-append hs ((other, value) ∷ []) key ∙ ground arith

stage_starts :
    (host : Host) (conf : ModuleConfig) (r : Request) (job : Job)
    → conf.epp_enable ≡ true
    → Processor.process_request host conf r ≡ (job, ngx_done)
    → epp_stage host conf r ≡ (job, ngx_done)
unfolding epp_stage after_epp
stage_starts host conf r job on e = ground arith

-- What the first stage leaves of the request.
abbrev pub routed_request : Json → ModuleConfig → Bytes → Request → Request
routed_request json conf bs r = record r {
  headers_in = r.headers_in ++ ((bbr_header conf, model_or_default json conf bs) ∷ []);
  request_body = clear_post_handler r.request_body;
  calls = resumed r;
}

module _ (ngx : Nginx) (json : Json) (host : Host) (disk : ℤ → Bytes) (conf : ModuleConfig)
    (ps : List Part) (r : Request) (b : HasBody ngx disk ps r)
    (files : (fd : ℤ) → ReadsFile host.pread fd (disk fd))
    (possible : conf.max_body_size ≤ isize_max) (small : total_size ps ≤ conf.max_body_size) where
  pub second_reads :
      extract_request_body host.pread
        (some conf)
        (routed_request json conf (all_contents disk ps) r)
      ≡ got (all_contents disk ps) (total_size ps)
  second_reads =
      extract_request_body_lem host.pread disk (some conf)
        (routed_request json conf (all_contents disk ps) r) ps b.rest false files b.sound
        (omega arith) (ap clear_post_handler b.stored)
      ∙ ground (arith, files_fit_small conf.max_body_size 0 ps (omega arith))

  second_begins :
      (fd : ℕ) (endpoint : Bytes)
      → eq_nat b.rest 0 ≡ true
      → conf.epp_enable ≡ true
      → configured_endpoint conf ≡ some endpoint
      → has_name r.headers_in (epp_header conf) ≡ false
      → names (epp_header conf) (bbr_header conf) ≡ false
      → leb 300 r.status ≡ false
      → r.connection ≡ true
      → host.eventfd ≡ pos fd
      → host.event_fits ≡ true
      → let q = routed_request json conf (all_contents disk ps) r in
        epp_stage host conf q ≡ (
          record {
            request = q;
            world = some (
                start q host.pool
                  (new_watcher (make_context conf endpoint q.headers_in) (pos fd) host.now));
          },
          ngx_done,
        )
  second_begins fd endpoint done on e absent differs early connected eventfd fits =
      let q = routed_request json conf (all_contents disk ps) r in
      stage_starts host conf q _ on (
        begins host conf fd endpoint (all_contents disk ps) (total_size ps)
          (record { bufs = bufs_of ps; rest = b.rest; post_handler = false }) q on e
          (get_header_in-other r.headers_in (epp_header conf) (bbr_header conf) _ absent differs)
          early connected (ap clear_post_handler b.stored) done eventfd fits second_reads)

  -- Under the conditions of the second pass of BBR (room for headers, UTF-8 names and texts,
  -- `pread` as POSIX has it for both stages, a limit that fits an `isize`, a complete body of
  -- sound parts that is not empty and within the limit, no such header yet), with EPP on and
  -- an endpoint, in a request that has no upstream header, whose name is not that of the model
  -- header, with a status below 300 and a connection, where the descriptor and the event are
  -- to be had: after the callback of BBR, the next pass of the access phase reads the same
  -- body again from the request, starts the call of EPP for the request's headers, the new one
  -- included, and returns NGX_DONE.
  pub second_pass_starts_call :
      (fd : ℕ) (endpoint : Bytes)
      → AddsHeader ngx
      → ((k v : Bytes) (q : Request) → (ngx.add_header_in k v q).1 ≡ true)
      → TextIsUtf8 json
      → is_utf8 (bbr_header conf) ≡ true
      → is_utf8 conf.bbr_default_model ≡ true
      → has_name r.headers_in (bbr_header conf) ≡ false
      → is_empty (all_contents disk ps) ≡ false
      → eq_nat b.rest 0 ≡ true
      → conf.epp_enable ≡ true
      → configured_endpoint conf ≡ some endpoint
      → has_name r.headers_in (epp_header conf) ≡ false
      → names (epp_header conf) (bbr_header conf) ≡ false
      → leb 300 r.status ≡ false
      → r.connection ≡ true
      → host.eventfd ≡ pos fd
      → host.event_fits ≡ true
      → let q = body_read_handler ngx json (some conf) r in
        inference_access_handler ngx json host (some conf) q ≡ (
          record {
            request = q;
            world = some (
                start q host.pool
                  (new_watcher (make_context conf endpoint q.headers_in) (pos fd) host.now));
          },
          ngx_done,
        )
  second_pass_starts_call fd endpoint adds room u name model absent full done on e no_upstream
        differs early connected eventfd fits =
      second_pass_picks ngx json host disk conf ps r adds room u b possible name model absent small
        full
      ∙ rw (handler_sets_header ngx adds room json conf disk ps r b possible absent small full)
          (second_begins fd endpoint done on e no_upstream differs early connected eventfd fits)

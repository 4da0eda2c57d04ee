-- ===== src/Access/Whole.antt =====
-- Both stages of the access phase over one request (src/lib.rs): from the body that the callback of the
-- first stage has read to the upstream of the second.
use ngx_inference.Prelude.{
  ℕ, ◌≤◌, ◌≡◌, ◌≢◌, sym, ◌∙◌, ap, true, false, List, [], ◌∷◌, ◌++◌, some, ℤ, pos, arith, leb,
  eq_nat, refl,
}
use mathlib.Core.Path.{subst}
use ngx_inference.Text.{Bytes, is_empty, to_ascii_lowercase}
use ngx_inference.Utf8.{is_utf8}
use ngx_inference.Config.{ModuleConfig}
use ngx_inference.Nginx.{Request, Nginx, AddsHeader, ngx_declined}
use ngx_inference.Nginx.Headers.{names, has_name, get_header_in}
use ngx_inference.Model.{Json, TextIsUtf8}
use ngx_inference.Body.{isize_max}
use ngx_inference.Body.Chunks.{ReadsFile}
use ngx_inference.Body.Parts.{Part, all_contents, total_size}
use ngx_inference.Bbr
use ngx_inference.Bbr.{bbr_header, body_read_handler}
use ngx_inference.Bbr.Handler.{HasBody, model_or_default, handler_sets_header}
use ngx_inference.Bbr.Once.{declines, second_pass_declines}
use ngx_inference.Epp.Again.{room}
use ngx_inference.Epp.Context.{epp_header, configured_endpoint, make_context, new_watcher}
use ngx_inference.Epp.Delivery.{PeerAnswers, settle}
use ngx_inference.Epp.Failure.{process_epp_result, upstream}
use ngx_inference.Epp.Start.{Host}
use ngx_inference.Epp.Task.{process_epp_async}
use ngx_inference.Epp.Timer.{World, fire, start}
use ngx_inference.Grpc.Channel.{Tonic, Inbound}
use ngx_inference.Grpc.Mutation.{first}
use ngx_inference.Grpc.Stream.{stream_offers}
use ngx_inference.Variable.{VariableValue}
use ngx_inference.Variable.Routing.{result-headers}
use ngx_inference.Access.{inference_access_handler}
use ngx_inference.Access.Pipeline.{routed_request, second_pass_starts_call}
use ngx_inference.Access.Routed.{IsRoutable, IsRouted, after_pass, served-IsRouted}

-- A header that is found stays found behind others.
pub found_stays :
    (hs more : List (Bytes × Bytes)) (key value : Bytes)
    → get_header_in hs key ≡ some value
    → get_header_in (hs ++ more) key ≡ some value
unfolding get_header_in
found_stays [] more key value h = cc
found_stays ((name, text) ∷ hs) more key value h = grind (arith, found_stays hs more key value)

-- A header that is absent stays absent behind one of another name.
absent_stays :
    (hs : List (Bytes × Bytes)) (key other value : Bytes)
    → has_name hs key ≡ false
    → names key other ≡ false
    → has_name (hs ++ ((other, value) ∷ [])) key ≡ false
absent_stays [] key other value h differs = ground arith
absent_stays ((name, text) ∷ hs) key other value h differs =
    grind (arith, absent_stays hs key other value)

-- The request as the first stage leaves it can take the header of the second.
pub routed-IsRoutable :
    (json : Json) (conf : ModuleConfig) (bs u : Bytes) (r : Request)
    → names (epp_header conf) (bbr_header conf) ≡ false
    → IsRoutable conf r u
    → IsRoutable conf (routed_request json conf bs r) u
routed-IsRoutable json conf bs u r differs route = record {
  absent =
      absent_stays r.headers_in (epp_header conf) (bbr_header conf) (model_or_default json conf bs)
        route.absent differs;
  name_utf8 = route.name_utf8;
  value_utf8 = route.value_utf8;
  name_nul = route.name_nul;
  value_nul = route.value_nul;
  fits = route.fits;
}

-- A result does not hide the header of the first stage, which then declines.
result_declines :
    (ngx : Nginx) (json : Json) (conf : ModuleConfig) (endpoint model u : Bytes)
    (hs : List (Bytes × Bytes)) (q : Request)
    → IsRoutable conf q u
    → get_header_in q.headers_in (bbr_header conf) ≡ some model
    → let r' = process_epp_result room (make_context conf endpoint hs) (upstream u) q in
      Bbr.process_request ngx json conf r' ≡ (r', ngx_declined)
unfolding make_context
result_declines ngx json conf endpoint model u hs q route found = declines ngx json conf _ (
    ap (λ xs. get_header_in xs (bbr_header conf))
      (result-headers room (make_context conf endpoint hs) q u route.name_nul route.value_nul refl)
    ∙ found_stays q.headers_in ((epp_header conf, u) ∷ []) (bbr_header conf) model found)

module _ (ngx : Nginx) (json : Json) (host : Host) (disk : ℤ → Bytes) (conf : ModuleConfig)
    (ps : List Part) (r : Request) (b : HasBody ngx disk ps r)
    (files : (fd : ℤ) → ReadsFile host.pread fd (disk fd))
    (possible : conf.max_body_size ≤ isize_max) (small : total_size ps ≤ conf.max_body_size)
    (tonic : Tonic) (inbound : Inbound) (endpoint u : Bytes) (fd : ℕ) where
  -- The request that is left when the call for `q` has been served, `ms` after a pass that leaves `p`
  -- and the call `w`.
  abbrev pub served : ℕ → Request → Request → World → Request
  served ms q p w =
      (fire (
        settle
          (process_epp_async tonic (make_context conf endpoint q.headers_in) (all_contents disk ps))
          (after_pass p ms w))).request

  -- With room for headers, UTF-8 names and texts, `pread` as POSIX has it for both stages and
  -- a limit that fits an `isize`, for a request with a complete body of sound parts that is
  -- not empty and within the limit, with neither header, a status below 300, a connection and
  -- a reference, with EPP on and an endpoint, the two headers' names different, the descriptor
  -- and the event to be had, and a peer that takes the connection and the call, sends its
  -- first message in time, and offers the value u first of all that it offers under the
  -- upstream header's name: after the callback of BBR, the header for the model holds the
  -- model of the body (or the default), and the next pass starts a call; when the task has
  -- sent its result and the timer fires within the timeout, on the request that the pass left,
  -- the pass after that declines in both stages, makes no call and leaves the request alone,
  -- and $inference_upstream is u. The header's name and u are UTF-8 with no zero byte, u is
  -- neither empty nor longer than 32 bits can say, and the pool has room.
  pub model-IsRouted :
      (ms : ℕ) (v : VariableValue)
      → AddsHeader ngx
      → ((k v : Bytes) (q : Request) → (ngx.add_header_in k v q).1 ≡ true)
      → TextIsUtf8 json
      → is_utf8 (bbr_header conf) ≡ true
      → is_utf8 conf.bbr_default_model ≡ true
      → has_name r.headers_in (bbr_header conf) ≡ false
      → is_empty (all_contents disk ps) ≡ false
      → eq_nat b.rest 0 ≡ true
      → conf.epp_enable ≡ true
      → configured_endpoint conf ≡ some endpoint
      → names (epp_header conf) (bbr_header conf) ≡ false
      → leb 300 r.status ≡ false
      → r.connection ≡ true
      → r.count ≢ 0
      → host.eventfd ≡ pos fd
      → host.event_fits ≡ true
      → host.pool ≡ room
      → IsRoutable conf r u
      → let q = body_read_handler ngx json (some conf) r in
        PeerAnswers tonic (make_context conf endpoint q.headers_in) inbound
        → first (stream_offers (to_ascii_lowercase (epp_header conf)) inbound.messages) ≡ some u
        → ms ≤ conf.epp_timeout_ms
        → let pass = inference_access_handler ngx json host (some conf) q in
          (w : World) × (pass.0.world ≡ some w)
          × (get_header_in q.headers_in (bbr_header conf)
              ≡ some (model_or_default json conf (all_contents disk ps)))
          × IsRouted ngx json host conf u v (served ms q pass.0.request w)
  model-IsRouted ms v adds roomy utf8 name model absent full done on e differs early connected
        counted eventfd fits pool route answers offers in_time =
      let q = body_read_handler ngx json (some conf) r in
      let left =
        handler_sets_header ngx adds roomy json conf disk ps r b possible absent small full in
      let started =
        second_pass_starts_call ngx json host disk conf ps r b files possible small fd endpoint adds
          roomy utf8 name model absent full done on e route.absent differs early connected eventfd
          fits in
      let (found, declined) =
        second_pass_declines ngx json disk conf ps r adds roomy utf8 b possible name model absent
          small full in
      let takes =
        subst (λ q. IsRoutable conf q u) (sym left)
          (routed-IsRoutable json conf (all_contents disk ps) u r differs route) in
      (
        _,
        ap (λ p. p.0.world) started,
        found,
        subst
            (λ p. IsRouted ngx json host conf u v (
              served ms q p (
                start q host.pool
                  (new_watcher (make_context conf endpoint q.headers_in) (pos fd) host.now))))
            (sym (ap (λ p. p.0.request) started))
            (served-IsRouted ngx json host tonic conf endpoint (all_contents disk ps) q.headers_in
              inbound q q u fd answers offers takes pool
              (ap (λ (t : Request). t.connection) left ∙ connected)
              (λ z. counted (sym (ap (λ (t : Request). t.count) left) ∙ z)) ms v in_time
              (result_declines ngx json conf endpoint _ u q.headers_in q takes found)),
      )

-- ===== src/Access/BothStages.antt =====
-- Both stages of the access phase (src/lib.rs), from the first pass over a request whose body is there at
-- once to the end of the call of the second stage, whatever the endpoint picker does.
use ngx_inference.Prelude.{
  ℕ, ◌≤◌, ◌<◌, ◌≡◌, ◌≢◌, sym, ◌∙◌, ap, true, false, List, none, some, ℤ, pos, ◌⊎◌, inl, inr, leb,
  eq_nat, arith,
}
use mathlib.Core.Path.{subst}
use ngx_inference.Text.{Bytes, is_empty}
use ngx_inference.Utf8.{is_utf8}
use ngx_inference.Config.{ModuleConfig}
use ngx_inference.Nginx.{
  Request, Nginx, AddsHeader, ngx_done, call, finalize, done_code, clear_post_handler,
}
use ngx_inference.Nginx.Headers.{names, has_name, get_header_in}
use ngx_inference.Model.{Json, TextIsUtf8}
use ngx_inference.Body.{isize_max}
use ngx_inference.Body.Chunks.{ReadsFile}
use ngx_inference.Body.Parts.{Part, bufs_of, all_contents, total_size}
use ngx_inference.Bbr
use ngx_inference.Bbr.{bbr_header, body_read_handler, start_body_reading, after_read_call}
use ngx_inference.Bbr.Handler.{HasBody, model_or_default, handler_sets_header}
use ngx_inference.Bbr.Once.{second_pass_declines}
use ngx_inference.Epp.Again.{room}
use ngx_inference.Epp.Body.{extract_request_body}
use ngx_inference.Epp.Context.{epp_header, configured_endpoint, make_context}
use ngx_inference.Epp.Failure.{has_nul, upstream}
use ngx_inference.Epp.Start.{Host, no_call}
use ngx_inference.Epp.Task.{process_epp_async}
use ngx_inference.Epp.Timer.{fire}
use ngx_inference.Grpc.Channel.{Tonic}
use ngx_inference.Grpc.Stream.{finished}
use ngx_inference.Variable.{VariableValue}
use ngx_inference.Access.{after_bbr, inference_access_handler}
use ngx_inference.Access.Pipeline.{routed_request, get_header_in-other, second_reads}
use ngx_inference.Access.Repeat.{CanCall, new_call}
use ngx_inference.Access.Routed.{IsRoutable}
use ngx_inference.Access.Settled.{Settled, end_of_call, call_settles}
use ngx_inference.Access.Whole.{routed-IsRoutable}

-- A first pass of the first stage, and what it is to have: a body, once it is read (in `rb`), and names
-- and texts that can be put in headers.
pub record IsFirstBbr (ngx : Nginx) (json : Json) (disk : ℤ → Bytes) (conf : ModuleConfig)
    (ps : List Part) (r rb : Request) : Type 0 where
  pub bbr_on : conf.bbr_enable ≡ true
  pub unset : get_header_in r.headers_in (bbr_header conf) ≡ none
  pub read :
      ngx.read_client_request_body (body_read_handler ngx json (some conf)) r
      ≡ (body_read_handler ngx json (some conf) rb, pos 0)
  pub body : HasBody ngx disk ps rb
  pub adds : AddsHeader ngx
  pub fits : (k v : Bytes) (q : Request) → (ngx.add_header_in k v q).1 ≡ true
  pub texts : TextIsUtf8 json
  pub name : is_utf8 (bbr_header conf) ≡ true
  pub model : is_utf8 conf.bbr_default_model ≡ true
  pub absent : has_name rb.headers_in (bbr_header conf) ≡ false
  pub possible : conf.max_body_size ≤ isize_max
  pub small : total_size ps ≤ conf.max_body_size
  pub full : is_empty (all_contents disk ps) ≡ false
  pub whole : eq_nat body.rest 0 ≡ true

-- What the second stage is to have, for the request as its body was read.
pub record IsFirstEpp (host : Host) (disk : ℤ → Bytes) (conf : ModuleConfig) (endpoint : Bytes)
    (fd : ℕ) (rb : Request) : Type 0 where
  pub files : (fd : ℤ) → ReadsFile host.pread fd (disk fd)
  pub epp_on : conf.epp_enable ≡ true
  pub chosen : configured_endpoint conf ≡ some endpoint
  pub absent : has_name rb.headers_in (epp_header conf) ≡ false
  pub differs : names (epp_header conf) (bbr_header conf) ≡ false
  pub fine : leb 300 rb.status ≡ false
  pub connected : rb.connection ≡ true
  pub counted : rb.count ≢ 0
  pub descriptor : host.eventfd ≡ pos fd
  pub event : host.event_fits ≡ true
  pub roomy : host.pool ≡ room

module _ (ngx : Nginx) (json : Json) (host : Host) (disk : ℤ → Bytes) (conf : ModuleConfig)
    (ps : List Part) (endpoint : Bytes) (fd : ℕ) (r rb : Request)
    (b : IsFirstBbr ngx json disk conf ps r rb) (e : IsFirstEpp host disk conf endpoint fd rb) where
  -- What the first pass leaves.
  abbrev pub left : Request
  left = call (finalize done_code) (body_read_handler ngx json (some conf) rb)

  abbrev routed : Request
  routed = call (finalize done_code) (routed_request json conf (all_contents disk ps) rb)

  left_is_routed : left ≡ routed
  left_is_routed = ap (call (finalize done_code)) (
      handler_sets_header ngx b.adds b.fits json conf disk ps rb b.body b.possible b.absent b.small
        b.full)

  first_pass : inference_access_handler ngx json host (some conf) r ≡ (no_call left, ngx_done)
  unfolding inference_access_handler Bbr.process_request start_body_reading after_read_call
      after_bbr
  first_pass = ground (arith, b.bbr_on, b.unset, b.read)

  header_found :
      get_header_in left.headers_in (bbr_header conf)
      ≡ some (model_or_default json conf (all_contents disk ps))
  header_found =
      (second_pass_declines ngx json disk conf ps rb b.adds b.fits b.texts b.body b.possible b.name
        b.model b.absent b.small b.full).0

  routed-CanCall : CanCall host conf endpoint fd routed
  unfolding extract_request_body
  routed-CanCall = record {
    content = all_contents disk ps;
    total = total_size ps;
    body = record { bufs = bufs_of ps; rest = b.body.rest; post_handler = false };
    bbr_done = ground (
      arith,
      subst
          (λ (q : Request).
            get_header_in q.headers_in (bbr_header conf)
            ≡ some (model_or_default json conf (all_contents disk ps)))
          left_is_routed header_found,
    );
    epp_on = e.epp_on;
    chosen = e.chosen;
    unset =
        get_header_in-other rb.headers_in (epp_header conf) (bbr_header conf) _ e.absent e.differs;
    fine = e.fine;
    connected = e.connected;
    there = ap clear_post_handler b.body.stored;
    complete = b.whole;
    descriptor = e.descriptor;
    event = e.event;
    readable = second_reads ngx json host disk conf ps rb b.body e.files b.possible b.small;
  }

  left-IsRoutable : (u : Bytes) → IsRoutable conf rb u → IsRoutable conf left u
  left-IsRoutable u route =
      let there = routed-IsRoutable json conf (all_contents disk ps) u rb e.differs route in
      subst (λ q. IsRoutable conf q u) (sym left_is_routed)
        (record {
          absent = there.absent;
          name_utf8 = there.name_utf8;
          value_utf8 = there.value_utf8;
          name_nul = there.name_nul;
          value_nul = there.value_nul;
          fits = there.fits;
        })

  -- With both stages on, for a request without the model header whose body is there at once:
  -- the first pass reads the body, starts no call and returns NGX_DONE, and leaves the model
  -- of the body (or the default) in the header; the next pass starts a call and returns
  -- NGX_DONE; and whatever the endpoint picker does, when the timer fires, within the timeout
  -- if the task ends and past it if it waits for ever, either the task has found an upstream
  -- with no zero byte, and the request is resumed once and routed to it; or the task has
  -- failed, as in `call_settles`, and the request is, in fail-open mode, resumed once, routed
  -- to the default, or as it is if there is none, and in fail-closed mode answered with the
  -- failure's status, 502 or 504. nginx and the pool have room; `pread` is as POSIX has it;
  -- the body is complete, of sound parts, not empty and within the limit, which fits an
  -- `isize`; there is an endpoint, and the descriptor and the event are to be had; the status
  -- is below 300 and the request has a connection and a reference; neither header is there,
  -- and their names differ; the default, and an upstream that the task finds and that holds no
  -- zero byte, are usable as in `call_settles`.
  pub stages_settle :
      (tonic : Tonic) (body : Bytes) (ms late : ℕ) (v : VariableValue)
      → ((d : Bytes) → conf.default_upstream ≡ some d → IsRoutable conf rb d)
      → let task = process_epp_async tonic (make_context conf endpoint left.headers_in) body in
        ((u : Bytes) → task ≡ finished (upstream u) → (has_nul u ≡ true) ⊎ IsRoutable conf rb u)
        → ms ≤ conf.epp_timeout_ms
        → conf.epp_timeout_ms < late
        → let w = new_call host conf endpoint fd left in
          (inference_access_handler ngx json host (some conf) r ≡ (no_call left, ngx_done))
          × (get_header_in left.headers_in (bbr_header conf)
              ≡ some (model_or_default json conf (all_contents disk ps)))
          × (inference_access_handler ngx json host (some conf) left
              ≡ (record { request = left; world = some w }, ngx_done))
          × Settled ngx json host conf v task left (fire (end_of_call task ms late left w)).request
  stages_settle tonic body ms late v defaults offered early passed =
      let can = subst (CanCall host conf endpoint fd) (sym left_is_routed) routed-CanCall in
      let same = left_is_routed in
      let (started, settled) =
        call_settles ngx json host tonic conf endpoint body fd left v can
          (λ z. e.counted (sym (ap (λ (q : Request). q.count) same) ∙ z)) e.roomy
          (λ d default. left-IsRoutable d (defaults d default)) ms late
          (λ u found. elim (offered u found) [
            | inl nul ↦ inl nul
            | inr route ↦ inr (left-IsRoutable u route)
          ])
          early passed in
      (first_pass, header_found, started, settled)

-- ===== src/Bbr/Handler.antt =====
-- What `bbr_body_read_handler` of src/modules/bbr.rs does with a complete body.
use ngx_inference.Prelude.{
  ℕ, ◌≤◌, ◌<◌, ◌≡◌, ◌∙◌, ap, Bool, true, false, List, [], ◌∷◌, ◌++◌, none, some, ℤ, pos, arith,
  is_positive, if◌then◌else◌, Option-cases, inl, inr,
}
use ngx_inference.Text.{Bytes, is_empty}
use ngx_inference.Config.{ModuleConfig}
use ngx_inference.Model.{Json, extract_model_from_body}
use ngx_inference.Nginx.{
  Request, Nginx, AddsHeader, Call, run_phases, special_response, finalize, is_run_phases,
  clear_post_handler,
}
use ngx_inference.Nginx.Headers.{has_name, get_header_in-none}
use ngx_inference.Body.{isize_max}
use ngx_inference.Body.Chunks.{ReadsFile}
use ngx_inference.Body.Parts.{Part, bufs_of, all_contents, total_size, AllSound}
use ngx_inference.Bbr.{
  bbr_header, resume_phases, set_model_header, route_body, process_body, body_read_handler,
}
use ngx_inference.Bbr.Body.{body, entity_too_large, read_request_body}
use ngx_inference.Bbr.Limit.{read_request_body_lem, expected_body}

-- A request whose body is complete and consists of sound parts.
pub record HasBody (ngx : Nginx) (disk : ℤ → Bytes) (ps : List Part) (r : Request) : Type 0 where
  pub rest : ℤ
  pub post_handler : Bool
  pub files : (fd : ℤ) → ReadsFile ngx.pread fd (disk fd)
  pub sound : AllSound disk ps
  pub complete : is_positive rest ≡ false
  pub stored :
      r.request_body ≡ some (record { bufs = bufs_of ps; rest = rest; post_handler = post_handler })

-- The request as the body reader sees it.
abbrev cleared : Request → Request
cleared r = record r { request_body = clear_post_handler r.request_body }

module _ (ngx : Nginx) (json : Json) (disk : ℤ → Bytes) (conf : ModuleConfig) (ps : List Part)
    (r : Request) (b : HasBody ngx disk ps r) (possible : conf.max_body_size ≤ isize_max)
    (absent : has_name r.headers_in (bbr_header conf) ≡ false) where
  reads :
      read_request_body ngx conf (cleared r) ≡ expected_body conf.max_body_size disk ps (cleared r)
  reads =
      read_request_body_lem ngx disk conf (cleared r) ps b.rest false b.files possible b.sound
        (ap clear_post_handler b.stored)

  enters : body_read_handler ngx json (some conf) r ≡ process_body ngx json conf r
  unfolding body_read_handler
  enters = ground (arith, b.stored, b.complete)

  reaches_body :
      process_body ngx json conf r
      ≡ route_body ngx json conf (read_request_body ngx conf (cleared r))
  unfolding process_body
  reaches_body = rw (get_header_in-none r.headers_in (bbr_header conf) absent)

  -- The callback gets as far as the result of reading the body.
  pub handler_routes :
      body_read_handler ngx json (some conf) r
      ≡ route_body ngx json conf (expected_body conf.max_body_size disk ps (cleared r))
  handler_routes = enters ∙ reaches_body ∙ ap (route_body ngx json conf) reads

  -- With `pread` as POSIX has it and a limit that fits an `isize`, for a request without the
  -- header whose body is complete and consists of sound parts: a body over the limit is
  -- answered with 413. The status is set, the special response is sent and the request
  -- finalized; no header is added and the phases are not resumed.
  pub handler_too_large :
      conf.max_body_size < total_size ps
      → body_read_handler ngx json (some conf) r ≡ record r {
        status = entity_too_large;
        request_body = clear_post_handler r.request_body;
        calls =
            (r.calls ++ (special_response entity_too_large ∷ []))
            ++ (finalize (pos entity_too_large) ∷ []);
      }
  unfolding route_body
  handler_too_large h = handler_routes ∙ ground arith

  -- With `pread` as POSIX has it and a limit that fits an `isize`, for a request without the
  -- header whose body is complete and consists of sound parts: an empty body is left alone:
  -- the callback adds no header, makes no call and does not resume the phases.
  pub handler_empty :
      is_empty (all_contents disk ps) ≡ true
      → total_size ps ≤ conf.max_body_size
      → body_read_handler ngx json (some conf) r
        ≡ record r { request_body = clear_post_handler r.request_body }
  unfolding route_body
  handler_empty e h = handler_routes ∙ ground arith

-- The header value: the model of the body, or the configured default.
abbrev pub model_or_default : Json → ModuleConfig → Bytes → Bytes
model_or_default json conf bs = elim (extract_model_from_body json bs) [
  | some m ↦ m
  | none ↦ conf.bbr_default_model
]

abbrev pub resumed : Request → List Call
resumed r = if is_run_phases r.write_event_handler then r.calls ++ (run_phases ∷ []) else r.calls

module _ (ngx : Nginx) (adds : AddsHeader ngx)
    (room : (k v : Bytes) (r : Request) → (ngx.add_header_in k v r).1 ≡ true) (json : Json)
    (conf : ModuleConfig) where
  set_model_header_lem :
      (bs : Bytes) (r : Request)
      → set_model_header ngx json conf bs r ≡ record r {
        headers_in = r.headers_in ++ ((bbr_header conf, model_or_default json conf bs) ∷ []);
      }
  unfolding set_model_header
  set_model_header_lem bs r = elim (Option-cases (extract_model_from_body json bs)) [
    | inl missing ↦ ground (
      arith,
      adds.added (bbr_header conf) conf.bbr_default_model r
          (room (bbr_header conf) conf.bbr_default_model r),
    )
    | inr (m, found) ↦ ground (arith, adds.added (bbr_header conf) m r (room (bbr_header conf) m r))
  ]

  resume_lem : (r : Request) → resume_phases r ≡ record r { calls = resumed r }
  unfolding resume_phases
  resume_lem r = ground arith

  expected_small :
      (max : ℕ) (disk : ℤ → Bytes) (ps : List Part) (r : Request)
      → total_size ps ≤ max
      → expected_body max disk ps r ≡ (r, body (all_contents disk ps))
  expected_small max disk ps r h = ground arith

  routed :
      (r : Request) (bs : Bytes)
      → is_empty bs ≡ false
      → route_body ngx json conf (r, body bs) ≡ resume_phases (set_model_header ngx json conf bs r)
  unfolding route_body
  routed r bs h = rw h

  -- Where nginx adds headers as documented and has room for them, with `pread` as POSIX has it
  -- and a limit that fits an `isize`, for a request without the header whose body is complete,
  -- consists of sound parts, is not empty and is within the limit: the callback appends the
  -- header with the model of the body, or with the default where it has none, changes nothing
  -- else of the headers, clears the post handler, and resumes the phases when the write
  -- handler is the one that runs them.
  pub handler_sets_header :
      (disk : ℤ → Bytes) (ps : List Part) (r : Request)
      → HasBody ngx disk ps r
      → conf.max_body_size ≤ isize_max
      → has_name r.headers_in (bbr_header conf) ≡ false
      → total_size ps ≤ conf.max_body_size
      → is_empty (all_contents disk ps) ≡ false
      → body_read_handler ngx json (some conf) r ≡ record r {
        headers_in =
            r.headers_in
            ++ ((bbr_header conf, model_or_default json conf (all_contents disk ps)) ∷ []);
        request_body = clear_post_handler r.request_body;
        calls = resumed r;
      }
  handler_sets_header disk ps r b possible absent small full =
      let bs = all_contents disk ps in
      let r' = set_model_header ngx json conf bs (cleared r) in
      handler_routes ngx json disk conf ps r b possible absent
      ∙ ap (route_body ngx json conf) (expected_small conf.max_body_size disk ps (cleared r) small)
      ∙ routed (cleared r) bs full
      ∙ resume_lem r'
      ∙ ap (λ (q : Request). record q { calls = resumed q }) (set_model_header_lem bs (cleared r))

-- ===== src/Epp/Typed.antt =====
-- Whatever an EPP call writes into the request's headers, the module can read again: the texts that
-- Rust holds as a `String` are UTF-8 (src/grpc.rs, src/epp/callbacks.rs, src/modules/bbr.rs).
use ngx_inference.Prelude.{
  ℕ, ◌≡◌, sym, ◌∙◌, ap, true, false, [], ◌∷◌, ◌++◌, Option, none, some, arith, ◌⊎◌, inl, inr,
  Option-cases, Bool-cases,
}
use mathlib.Core.Path.{subst}
use ngx_inference.Text.{Bytes, to_ascii_lowercase}
use ngx_inference.Utf8.{is_utf8}
use ngx_inference.Nginx.{Request, clear_post_handler}
use ngx_inference.Nginx.Headers.{Headers, has_name, get_header_in, get_header_in-added}
use ngx_inference.Grpc.Channel.{
  Tonic, Tls, Result, ok, err, Inbound, Ending, closed, failed, silent, headers_message,
  normalize_endpoint, open_channel,
}
use ngx_inference.Grpc.Stream.{
  Selection, finished, waiting, read_stream, read_stream-first, stream_offers, select,
  first_times_out,
}
use ngx_inference.Grpc.Mutation.{parse_response_for_header_async, first}
use ngx_inference.Grpc.Typed.{DecodesText, stream_offers-IsUtf8}
use ngx_inference.Grpc.Client.{EppCall, run_stream, exchange, epp_headers_blocking_internal}
use ngx_inference.Epp.Context.{AsyncEppContext}
use ngx_inference.Epp.Failure.{
  Pool, set_upstream_header, set_default, handle_epp_failure, TaskResult, upstream, no_upstream,
  epp_error, after_set, process_epp_result, bad_gateway,
}
use ngx_inference.Epp.Task.{call_of, task_result, process_epp_async}

-- A selection is the first value of the stream.
select_is :
    (v : Option Bytes) (e : Ending) (u : Bytes) → select v e ≡ finished (ok (some u)) → v ≡ some u
select_is (some v) e u h = ground arith
select_is none closed u h = ground arith
select_is none failed u h = ground arith
select_is none silent u h = ground arith

read_stream-offered :
    (key u : Bytes) (timeout_ms : ℕ) (inbound : Inbound)
    → read_stream parse_response_for_header_async key timeout_ms inbound ≡ finished (ok (some u))
    → first (stream_offers key inbound.messages) ≡ some u
read_stream-offered key u timeout_ms inbound e =
    let whole = sym (read_stream-first key timeout_ms inbound) ∙ e in
    elim (Bool-cases (first_times_out timeout_ms inbound)) [
      | inl late ↦ ground (arith, whole, late)
      | inr early ↦
          select_is (first (stream_offers key inbound.messages)) inbound.ending u
            (ground (arith, whole, early))
    ]

module _ (tonic : Tonic) (d : DecodesText tonic) (u : Bytes) where
  run_stream-IsUtf8 :
      (c : EppCall) (channel : Bytes × Tls)
      → run_stream parse_response_for_header_async tonic c channel ≡ finished (ok (some u))
      → is_utf8 u ≡ true
  unfolding run_stream
  run_stream-IsUtf8 c (uri, tls) e =
      elim (Option-cases (tonic.process uri tls (headers_message c.headers))) [
        | inl refused ↦ ground (arith, refused, e)
        | inr (inbound, there) ↦
            let key = to_ascii_lowercase c.header_name in
            stream_offers-IsUtf8 key u inbound.messages (d.decodes uri tls _ inbound there)
              (read_stream-offered key u c.timeout_ms inbound (ground (arith, there, e)))
      ]

  opened-IsUtf8 :
      (c : EppCall) (r : Result (Bytes × Tls))
      → (elim r [
        | err e ↦ finished (err e)
        | ok channel ↦ run_stream parse_response_for_header_async tonic c channel
      ])
        ≡ finished (ok (some u))
      → is_utf8 u ≡ true
  opened-IsUtf8 c (err e) h = ground arith
  opened-IsUtf8 c (ok channel) h = run_stream-IsUtf8 c channel h

  selected :
      (s : Selection)
      → (elim s [ finished r ↦ finished (task_result r) | waiting ↦ waiting ])
        ≡ finished (upstream u)
      → s ≡ finished (ok (some u))
  unfolding task_result
  selected waiting h = ground arith
  selected (finished (err e)) h = ground arith
  selected (finished (ok none)) h = ground arith
  selected (finished (ok (some v))) h = ground arith

  -- The upstream that a task delivers.
  delivered-IsUtf8 :
      (ctx : AsyncEppContext) (body : Bytes)
      → process_epp_async tonic ctx body ≡ finished (upstream u)
      → is_utf8 u ≡ true
  unfolding process_epp_async epp_headers_blocking_internal exchange
  delivered-IsUtf8 ctx body e =
      opened-IsUtf8 (call_of ctx)
        (open_channel tonic (normalize_endpoint ctx.endpoint ctx.use_tls) ctx.use_tls ctx.ca_file)
        (selected _ e)

-- The headers are as before, or there is one more, which is found, with a value that is a string.
abbrev pub IsReadBack : Bytes → Headers → Headers → Type 0
IsReadBack key hs hs' =
    (hs' ≡ hs)
    ⊎ ((v : Bytes) × (hs' ≡ hs ++ ((key, v) ∷ []))
        × (get_header_in hs' key ≡ some v)
        × (is_utf8 v ≡ true))

put :
    (hs hs' : Headers) (key v : Bytes)
    → is_utf8 key ≡ true
    → has_name hs key ≡ false
    → is_utf8 v ≡ true
    → hs' ≡ hs ++ ((key, v) ∷ [])
    → IsReadBack key hs hs'
put hs hs' key v utf8 absent text e =
    inr (
      v,
      e,
      ap (λ xs. get_header_in xs key) e ∙ get_header_in-added hs key v absent utf8 text,
      text,
    )

set-cases :
    (pool : Pool) (r : Request) (key v : Bytes)
    → let p = set_upstream_header pool r key v in
      (p.0 ≡ r) × (p.1 ≡ false) ⊎ (p.1 ≡ true) × (p.0.headers_in ≡ r.headers_in ++ ((key, v) ∷ []))
unfolding set_upstream_header
set-cases pool r key v = ground arith

module _ (pool : Pool) (ctx : AsyncEppContext) (utf8 : is_utf8 ctx.upstream_header ≡ true)
    (typed : (v : Bytes) → ctx.default_upstream ≡ some v → is_utf8 v ≡ true) where
  abbrev IsKept : Request → Request → Type 0
  IsKept r q = IsReadBack ctx.upstream_header r.headers_in q.headers_in

  default_read_back :
      (r : Request)
      → has_name r.headers_in ctx.upstream_header ≡ false
      → IsKept r (set_default pool ctx r)
  unfolding set_default
  default_read_back r absent = elim (Option-cases ctx.default_upstream) [
    | inl unset ↦ inl (ground (arith, unset))
    | inr (v, known) ↦ elim (set-cases pool r ctx.upstream_header v) [
      | inl (same, _) ↦ inl (ground (arith, known, same))
      | inr (_, more) ↦
          put r.headers_in _ ctx.upstream_header v utf8 absent (typed v known)
            (ground (arith, known, more))
    ]
  ]

  failure_read_back :
      (code : ℕ) (r : Request)
      → has_name r.headers_in ctx.upstream_header ≡ false
      → IsKept r (handle_epp_failure pool ctx code r)
  unfolding handle_epp_failure
  failure_read_back code r absent = elim (Bool-cases ctx.failure_mode_allow) [
    | inl allow ↦
        subst (IsReadBack ctx.upstream_header r.headers_in) (ground (arith, allow))
          (default_read_back (record r { request_body = clear_post_handler r.request_body }) absent)
    | inr refuse ↦ inl (ground (arith, refuse))
  ]

  upstream_read_back :
      (r : Request) (u : Bytes)
      → has_name r.headers_in ctx.upstream_header ≡ false
      → is_utf8 u ≡ true
      → IsKept r (process_epp_result pool ctx (upstream u) r)
  unfolding process_epp_result after_set
  upstream_read_back r u absent text = elim (set-cases pool r ctx.upstream_header u) [
    | inl (same, bad) ↦
        subst (IsReadBack ctx.upstream_header r.headers_in) (ground (arith, same, bad))
          (failure_read_back bad_gateway r absent)
    | inr (good, more) ↦
        put r.headers_in _ ctx.upstream_header u utf8 absent text (ground (arith, good, more))
  ]

  -- For any peer whose messages are typed as the generated code has them, a header name and a
  -- default upstream that are UTF-8, and a request without the header: whatever the task
  -- delivers, `process_epp_result` leaves the request's headers as they were or appends one
  -- header of the configured name, whose value is UTF-8 and is what `get_header_in` then
  -- finds, so that a written upstream is never invisible to the next pass.
  pub written-IsReadBack :
      (tonic : Tonic) (body : Bytes) (result : TaskResult) (r : Request)
      → DecodesText tonic
      → has_name r.headers_in ctx.upstream_header ≡ false
      → process_epp_async tonic ctx body ≡ finished result
      → IsReadBack ctx.upstream_header r.headers_in
          (process_epp_result pool ctx result r).headers_in
  unfolding process_epp_result
  written-IsReadBack tonic body (upstream u) r d absent e =
      upstream_read_back r u absent (delivered-IsUtf8 tonic d u ctx body e)
  written-IsReadBack tonic body no_upstream r d absent e = failure_read_back bad_gateway r absent
  written-IsReadBack tonic body (epp_error m) r d absent e = failure_read_back bad_gateway r absent

-- ===== src/Epp/Callback.antt =====
-- `body_read_done` (src/epp/callbacks.rs) loses no request: it starts one call, or answers.
use ngx_inference.Prelude.{
  ℕ, suc, ◌≤◌, ◌≡◌, ◌≢◌, ◌⊎◌, refl, true, List, [], ◌∷◌, Option, none, some, ℤ, pos, arith, if_both,
  option_both, inl, inr, Option-cases, as_usize, ◌-ℤ◌, i64_max,
}
use mathlib.Core.Path.{subst}
use ngx_inference.Text.{Bytes}
use ngx_inference.Config.{ModuleConfig}
use ngx_inference.Nginx.{Buf, Request, RequestBody}
use ngx_inference.Body.{BufRead, got, err, aborted, unfinished, append_chunks, and_then, walk}
use ngx_inference.Body.Chunks.{ChunkRead, chunks, read_failed, no_fuel, read_chunks}
use ngx_inference.Body.Ends.{extract_ends}
use ngx_inference.Epp.Context.{AsyncEppContext, create_eventfd, make_context, configured_endpoint}
use ngx_inference.Epp.Body.{
  ExtractError, file_read_error, extract_memory, extract_file, extract_buf, body_limit,
  extract_request_body,
}
use ngx_inference.Epp.Failure.{bad_gateway}
use ngx_inference.Epp.Timer.{World, start}
use ngx_inference.Epp.Race.{answers, answers-handle_epp_failure}
use ngx_inference.Epp.Start.{
  Job, Host, no_call, fail_job, setup_result_timer, start_call, callback_call, callback_body,
  body_read_done,
}

-- A buffer whose file range, if it has one, begins at or after 0 and ends within an `off_t`.
abbrev pub HasRange : Option Buf → Type 0
HasRange none = Unit
HasRange (some b) =
    (lo : ℕ) × (hi : ℕ) × (b.file_pos ≡ pos lo) × (b.file_last ≡ pos hi) × (hi ≤ i64_max)

abbrev pub AllRanges : List (Option Buf) → Type 0
AllRanges [] = Unit
AllRanges (b ∷ cl) = HasRange b × AllRanges cl

and_then-ne-aborted :
    (m : BufRead ExtractError) (next : Bytes → ℕ → BufRead ExtractError)
    → m ≢ aborted
    → ((body : Bytes) (total : ℕ) → next body total ≢ aborted)
    → and_then m next ≢ aborted
and_then-ne-aborted (got body total) next h k = k body total
and_then-ne-aborted (err e) next h k = ground arith
and_then-ne-aborted aborted next h k = h
and_then-ne-aborted unfinished next h k = ground arith

append_chunks-ne-aborted :
    (body : Bytes) (total : ℕ) (c : ChunkRead)
    → append_chunks file_read_error body total c ≢ aborted
append_chunks-ne-aborted body total (chunks bs) = ground arith
append_chunks-ne-aborted body total read_failed = ground arith
append_chunks-ne-aborted body total no_fuel = ground arith

module _ (pread : ℤ → ℕ → ℤ → Option Bytes) (max : ℕ) where
  extract_file-ne-aborted :
      (fd : ℤ) (lo hi : ℕ) (body : Bytes) (total : ℕ)
      → hi ≤ i64_max
      → extract_file pread max fd (pos lo) (pos hi) body total ≢ aborted
  unfolding extract_file
  extract_file-ne-aborted fd lo hi body total h = ground (
    arith,
    append_chunks-ne-aborted body total (
        read_chunks pread fd (pos lo) (as_usize (pos hi -ℤ pos lo)) (as_usize (pos hi -ℤ pos lo)) 0
          []),
  )

  extract_memory-ne-aborted :
      (buf : Buf) (body : Bytes) (total : ℕ) → extract_memory buf body total ≢ aborted
  unfolding extract_memory
  extract_memory-ne-aborted buf body total = ground arith

  extract_buf-ne-aborted :
      (buf : Option Buf) (body : Bytes) (total : ℕ)
      → HasRange buf
      → extract_buf pread max buf body total ≢ aborted
  unfolding extract_buf
  extract_buf-ne-aborted none body total range = ground arith
  extract_buf-ne-aborted (some buf) body total (lo, hi, at, to, within) =
      and_then-ne-aborted (extract_memory buf body total) _
        (extract_memory-ne-aborted buf body total)
        (λ body' total'. elim (Option-cases buf.file) [
          | inl memory ↦ ground (arith, memory)
          | inr (fd, e) ↦
              ground (arith, e, at, to, extract_file-ne-aborted fd lo hi body' total' within)
        ])

  walk-ne-aborted :
      (cl : List (Option Buf)) (body : Bytes) (total : ℕ)
      → AllRanges cl
      → walk (extract_buf pread max) cl body total ≢ aborted
  unfolding walk
  walk-ne-aborted [] body total ranges = ground arith
  walk-ne-aborted (buf ∷ cl) body total ranges =
      and_then-ne-aborted (extract_buf pread max buf body total) _
        (extract_buf-ne-aborted buf body total ranges.0)
        (λ body' total'. walk-ne-aborted cl body' total' ranges.1)

abbrev pub BodyHasRanges : Option RequestBody → Type 0
BodyHasRanges none = Unit
BodyHasRanges (some b) = AllRanges b.bufs

extract-ne-aborted :
    (pread : ℤ → ℕ → ℤ → Option Bytes) (conf : Option ModuleConfig) (r : Request)
    → BodyHasRanges r.request_body
    → extract_request_body pread conf r ≢ aborted
unfolding extract_request_body
extract-ne-aborted pread conf r ranges = elim (Option-cases r.request_body) [
  | inl nothing ↦ ground (arith, nothing)
  | inr (b, e) ↦
      ground (
        arith,
        e,
        walk-ne-aborted pread (body_limit conf) b.bufs [] 0 (subst BodyHasRanges e ranges),
      )
]

-- A call for the request, which is left as it is; or no call, and one answer.
abbrev pub CallOrAnswer : Request → Job → Type 0
CallOrAnswer r j =
    ((w : World) × (j.world ≡ some w) × (j.request ≡ r) × (w.request ≡ r))
    ⊎ ((j.world ≡ none) × (answers j.request.calls ≡ suc (answers r.calls)))

-- A property of the two outcomes that a body reader has when it neither aborts nor diverges.
read_or_fail :
    {A : Type 0} (P : A → Type 0) (b : BufRead ExtractError) (failed read ended stuck : A)
    → b ≢ aborted
    → b ≢ unfinished
    → P failed
    → P read
    → P (elim b as (λ _. A) [
      | err e ↦ failed
      | got body total ↦ read
      | aborted ↦ ended
      | unfinished ↦ stuck
    ])
read_or_fail P (err e) failed read ended stuck sane done p q = p
read_or_fail P (got body total) failed read ended stuck sane done p q = q
read_or_fail P aborted failed read ended stuck sane done p q = absurd (sane refl)
read_or_fail P unfinished failed read ended stuck sane done p q = absurd (done refl)

module _ (host : Host) (ctx : AsyncEppContext) (r : Request) where
  failed_answers : CallOrAnswer r (fail_job host ctx r)
  failed_answers = inr (refl, answers-handle_epp_failure host.pool ctx bad_gateway r)

  start_call_request : (fd : ℤ) (w : World) → start_call host ctx r fd ≡ some w → w.request ≡ r
  unfolding start_call setup_result_timer start
  start_call_request fd w e = ground (arith, e)

  callback_call_once : CallOrAnswer r (callback_call host ctx r)
  unfolding callback_call
  callback_call_once =
      option_both (CallOrAnswer r) (create_eventfd host.eventfd) _ _ (λ none_left. failed_answers)
        (λ fd e.
          option_both (CallOrAnswer r) (start_call host ctx r fd) _ _ (λ failed. failed_answers)
            (λ w began. inl (w, refl, refl, start_call_request fd w began)))

callback_body_once :
    (host : Host) (conf : ModuleConfig) (ctx : AsyncEppContext) (r : Request)
    → BodyHasRanges r.request_body
    → CallOrAnswer r (callback_body host conf ctx (no_call r))
unfolding callback_body
callback_body_once host conf ctx r ranges =
    read_or_fail (CallOrAnswer r) (extract_request_body host.pread (some conf) r) _ _ _ _
      (extract-ne-aborted host.pread (some conf) r ranges) (extract_ends host.pread (some conf) r)
      (failed_answers host ctx r) (callback_call_once host ctx r)

-- The callback of a body that has been read loses no request: with a connection, an endpoint, and
-- file ranges that begin at or after 0 and end within an `off_t`, it starts one call for the
-- request and leaves the request as it is, or it starts none and answers the request exactly once,
-- whatever the body, `pread`, the descriptors and the memory give.
pub body_read_done_once :
    (host : Host) (conf : ModuleConfig) (r : Request) (endpoint : Bytes)
    → r.connection ≡ true
    → configured_endpoint conf ≡ some endpoint
    → BodyHasRanges r.request_body
    → CallOrAnswer r (body_read_done host (some conf) (no_call r))
unfolding body_read_done
body_read_done_once host conf r endpoint connected chosen ranges =
    if_both (CallOrAnswer r) r.connection _ _
      (λ there.
        option_both (CallOrAnswer r) (configured_endpoint conf) _ _ (λ nowhere. cc)
          (λ e some_e. callback_body_once host conf (make_context conf e r.headers_in) r ranges))
      (λ gone. cc)

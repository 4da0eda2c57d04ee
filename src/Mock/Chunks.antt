-- ===== src/Mock/Chunks.antt =====
-- The mock in its BBR role (bin/extproc_mock.rs): bodies that come in chunks, and the model that it
-- finds, against src/model_extractor.rs.
use ngx_inference.Prelude.{
  ℕ, suc, ◌<◌, ◌≡◌, ◌∙◌, ap, true, false, List, [], ◌∷◌, ◌++◌, Option, none, arith, inl, inr,
  Bool-cases,
}
use mathlib.Core.List.{append_assoc}
use ngx_inference.Text.{Bytes, bytes, bytes_eq}
use ngx_inference.Utf8.{is_utf8, from_utf8}
use ngx_inference.Model.{Json, extract_model_from_body}
use ngx_inference.Grpc.Proto.{ProcessingRequest}
use ngx_inference.Mock.Received.{send_taken}
use ngx_inference.Mock.{
  ExtProcMock, Inbound, request_headers, request_body, reply, body_resp, Task, fresh, detect,
  on_headers, on_body, on_inbound, after_loop, run, process, unwrap_or,
}

-- A body in chunks, the last of which ends the stream.
abbrev pub body_stream : {Status : Type 0} → List Bytes → Bytes → List (Inbound Status)
body_stream [] last = request_body (record { body = last; end_of_stream = true }) ∷ []
body_stream (c ∷ cs) last =
    request_body (record { body = c; end_of_stream = false }) ∷ body_stream cs last

abbrev pub joined : List Bytes → Bytes → Bytes
joined [] last = last
joined (c ∷ cs) last = c ++ joined cs last

-- serde_json's two entries read the same texts, and bytes that are not UTF-8 are no JSON.
pub record ReadsSlices (json : Json) (from_slice : Bytes → Option json.Value) : Type 0 where
  pub utf8 : (b : Bytes) → is_utf8 b ≡ true → from_slice b ≡ json.from_str b
  pub not_utf8 : (b : Bytes) → is_utf8 b ≡ false → from_slice b ≡ none

module _ (json : Json) (from_slice : Bytes → Option json.Value) where
  detect-extract :
      (b before : Bytes)
      → ReadsSlices json from_slice
      → detect json from_slice b before ≡ unwrap_or (extract_model_from_body json b) before
  unfolding detect extract_model_from_body from_utf8
  detect-extract b before reads = elim (Bool-cases (is_utf8 b)) [
    | inl good ↦ ground (arith, good, reads.utf8 b good)
    | inr bad ↦ ground (arith, bad, reads.not_utf8 b bad)
  ]

module _ {Status : Type 0} (json : Json) (from_slice : Bytes → Option json.Value)
    (mock : ExtProcMock) (not_epp : bytes_eq mock.role (bytes "EPP") ≡ false) where
  after_loop_stays : (t : Task Status) → after_loop json from_slice mock t ≡ t
  unfolding after_loop
  after_loop_stays t = elim (Bool-cases t.sent_headers_response) [
    | inl sent ↦ ground (arith, sent, not_epp)
    | inr unsent ↦ ground (arith, unsent, not_epp)
  ]

  run_headers :
      (message : ProcessingRequest) (more : List (Inbound Status)) (t : Task Status)
      → run json from_slice mock (request_headers message ∷ more) t
        ≡ run json from_slice mock more t
  unfolding run on_inbound on_headers
  run_headers message more t = ground (arith, not_epp)

  -- The chunks that are still to come are added to those that are there.
  run_chunks :
      (cs : List Bytes) (last : Bytes) (t : Task Status)
      → 0 < t.taken
      → (run json from_slice mock (body_stream cs last) t).out
        ≡ t.out
          ++ (reply (
                body_resp mock
                  (detect json from_slice (t.body_buf ++ joined cs last) t.current_bbr_model))
              ∷ [])
  unfolding run on_inbound on_body
  run_chunks [] last t room =
      let model = detect json from_slice (t.body_buf ++ last) t.current_bbr_model in
      let t' = record t { body_buf = t.body_buf ++ last; current_bbr_model = model } in
      rw (send_taken (reply (body_resp mock model)) t' room) (ap (λ u. u.out) (after_loop_stays _))
  run_chunks (c ∷ cs) last t room =
      rw (← append_assoc t.body_buf c (joined cs last))
        (run_chunks cs last (record t { body_buf = t.body_buf ++ c }) room)

  -- In any role but EPP, and with serde_json reading slices as it documents: a request whose body comes
  -- in chunks, wherever it is cut, to a client that takes at least one reply, gets one reply, after
  -- the last chunk; it sets the model that src/model_extractor.rs extracts from the whole body, or
  -- the default where there is none.
  pub process_chunks :
      (message : ProcessingRequest) (cs : List Bytes) (last : Bytes) (taken : ℕ)
      → ReadsSlices json from_slice
      → process {Status = Status} json from_slice mock
          (suc taken)
          (request_headers message ∷ body_stream cs last)
        ≡ reply (
            body_resp mock
              (unwrap_or (extract_model_from_body json (joined cs last)) mock.bbr_model))
          ∷ []
  unfolding process
  process_chunks message cs last taken reads =
      ap (λ u. u.out) (run_headers message (body_stream cs last) (fresh mock (suc taken)))
      ∙ run_chunks cs last (fresh mock (suc taken)) (omega arith)
      ∙ (ap (λ m. reply (body_resp mock m) ∷ [])
          (detect-extract json from_slice (joined cs last) mock.bbr_model reads))

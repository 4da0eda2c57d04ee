-- ===== src/Body/Ends.antt =====
-- The two body readers end on every chain of buffers and with every `pread`: read_request_body of
-- src/modules/bbr.rs and extract_request_body of src/epp/callbacks.rs.
use ngx_inference.Prelude.{
  ℕ, ◌≢◌, refl, List, [], ◌∷◌, Option, none, some, ℤ, arith, Option-cases, inl, inr, as_usize, ◌-ℤ◌,
}
use ngx_inference.Text.{Bytes}
use ngx_inference.Config.{ModuleConfig}
use ngx_inference.Nginx.{Buf, Request, Nginx}
use ngx_inference.Body.{BufRead, got, err, aborted, unfinished, append_chunks, and_then, walk}
use ngx_inference.Body.Chunks.{
  ChunkRead, chunks, read_failed, no_fuel, read_chunks, read_chunks-ne-no_fuel,
}
use ngx_inference.Bbr.Body.{
  read_memory, read_file, read_buf, diverged, finish_body, read_request_body, BodyError, too_large,
  broken,
}
use ngx_inference.Epp.Body.{
  file_read_error, extract_memory, extract_file, extract_buf, body_limit, extract_request_body,
}

module _ {E : Type 0} where
  and_then-ne-unfinished :
      (m : BufRead E) (next : Bytes → ℕ → BufRead E)
      → m ≢ unfinished
      → ((body : Bytes) (total : ℕ) → next body total ≢ unfinished)
      → and_then m next ≢ unfinished
  and_then-ne-unfinished (got body total) next h k = k body total
  and_then-ne-unfinished (err e) next h k = ground arith
  and_then-ne-unfinished aborted next h k = ground arith
  and_then-ne-unfinished unfinished next h k = h

  append_chunks-ne-unfinished :
      (e : E) (body : Bytes) (total : ℕ) (c : ChunkRead)
      → c ≢ no_fuel
      → append_chunks e body total c ≢ unfinished
  append_chunks-ne-unfinished e body total (chunks bs) h = ground arith
  append_chunks-ne-unfinished e body total read_failed h = ground arith
  append_chunks-ne-unfinished e body total no_fuel h = absurd (h refl)

  walk-ne-unfinished :
      (step : Option Buf → Bytes → ℕ → BufRead E) (cl : List (Option Buf)) (body : Bytes)
      (total : ℕ)
      → ((buf : Option Buf) (body : Bytes) (total : ℕ) → step buf body total ≢ unfinished)
      → walk step cl body total ≢ unfinished
  unfolding walk
  walk-ne-unfinished step [] body total h = ground arith
  walk-ne-unfinished step (buf ∷ cl) body total h =
      and_then-ne-unfinished (step buf body total) (walk step cl) (h buf body total)
        (λ body' total'. walk-ne-unfinished step cl body' total' h)

module _ (pread : ℤ → ℕ → ℤ → Option Bytes) (max : ℕ) where
  file_chunks-ne-unfinished :
      {E : Type 0} (e : E) (fd file_pos : ℤ) (size : ℕ) (body : Bytes) (total : ℕ)
      → append_chunks e body total (read_chunks pread fd file_pos size size 0 []) ≢ unfinished
  file_chunks-ne-unfinished e fd file_pos size body total =
      append_chunks-ne-unfinished e body total _
        (read_chunks-ne-no_fuel pread fd file_pos size size 0 [] (omega arith))

  read_memory-ne-unfinished :
      (buf : Buf) (body : Bytes) (total : ℕ) → read_memory max buf body total ≢ unfinished
  unfolding read_memory
  read_memory-ne-unfinished buf body total = ground arith

  read_file-ne-unfinished :
      (fd file_pos file_last : ℤ) (body : Bytes) (total : ℕ)
      → read_file pread max fd file_pos file_last body total ≢ unfinished
  unfolding read_file
  read_file-ne-unfinished fd file_pos file_last body total = ground (
    arith,
    file_chunks-ne-unfinished broken fd file_pos (as_usize (file_last -ℤ file_pos)) body total,
  )

  read_buf-ne-unfinished :
      (buf : Option Buf) (body : Bytes) (total : ℕ) → read_buf pread max buf body total ≢ unfinished
  unfolding read_buf
  read_buf-ne-unfinished none body total = ground arith
  read_buf-ne-unfinished (some buf) body total =
      and_then-ne-unfinished (read_memory max buf body total) _
        (read_memory-ne-unfinished buf body total)
        (λ body' total'. elim (Option-cases buf.file) [
          | inl memory ↦ ground (arith, memory)
          | inr (fd, e) ↦
              ground (arith, e, read_file-ne-unfinished fd buf.file_pos buf.file_last body' total')
        ])

  extract_memory-ne-unfinished :
      (buf : Buf) (body : Bytes) (total : ℕ) → extract_memory buf body total ≢ unfinished
  unfolding extract_memory
  extract_memory-ne-unfinished buf body total = ground arith

  extract_file-ne-unfinished :
      (fd file_pos file_last : ℤ) (body : Bytes) (total : ℕ)
      → extract_file pread max fd file_pos file_last body total ≢ unfinished
  unfolding extract_file
  extract_file-ne-unfinished fd file_pos file_last body total = ground (
    arith,
    file_chunks-ne-unfinished file_read_error fd file_pos (as_usize (file_last -ℤ file_pos)) body
        total,
  )

  extract_buf-ne-unfinished :
      (buf : Option Buf) (body : Bytes) (total : ℕ)
      → extract_buf pread max buf body total ≢ unfinished
  unfolding extract_buf
  extract_buf-ne-unfinished none body total = ground arith
  extract_buf-ne-unfinished (some buf) body total =
      and_then-ne-unfinished (extract_memory buf body total) _
        (extract_memory-ne-unfinished buf body total)
        (λ body' total'. elim (Option-cases buf.file) [
          | inl memory ↦ ground (arith, memory)
          | inr (fd, e) ↦
              ground
                (arith, e, extract_file-ne-unfinished fd buf.file_pos buf.file_last body' total')
        ])

finish_body-ne-diverged :
    (r : Request) (b : BufRead BodyError) → b ≢ unfinished → (finish_body r b).1 ≢ diverged
unfolding finish_body
finish_body-ne-diverged r (got bs total) h = ground arith
finish_body-ne-diverged r (err too_large) h = ground arith
finish_body-ne-diverged r (err broken) h = ground arith
finish_body-ne-diverged r aborted h = ground arith
finish_body-ne-diverged r unfinished h = absurd (h refl)

pub extract_ends :
    (pread : ℤ → ℕ → ℤ → Option Bytes) (limits : Option ModuleConfig) (r : Request)
    → extract_request_body pread limits r ≢ unfinished
unfolding extract_request_body
extract_ends pread limits r = elim (Option-cases r.request_body) [
  | inl nothing ↦ ground (arith, nothing)
  | inr (b, e) ↦
      let epp =
        walk-ne-unfinished (extract_buf pread (body_limit limits)) b.bufs [] 0
          (extract_buf-ne-unfinished pread (body_limit limits)) in
      ground (arith, e, epp)
]

-- Both readers of the request's body end, for every request and every limit, whatever `pread`
-- returns and however the chain of buffers is made: neither runs out of the model's fuel.
pub body_readers_end :
    (ngx : Nginx) (conf : ModuleConfig) (pread : ℤ → ℕ → ℤ → Option Bytes)
    (limits : Option ModuleConfig) (r : Request)
    → ((read_request_body ngx conf r).1 ≢ diverged)
      × (extract_request_body pread limits r ≢ unfinished)
unfolding read_request_body
body_readers_end ngx conf pread limits r = elim (Option-cases r.request_body) [
  | inl nothing ↦ (ground (arith, nothing), extract_ends pread limits r)
  | inr (b, e) ↦
      let bbr =
        walk-ne-unfinished (read_buf ngx.pread conf.max_body_size) b.bufs [] 0
          (read_buf-ne-unfinished ngx.pread conf.max_body_size) in
      (
        ground (
          arith,
          e,
          finish_body-ne-diverged r (walk (read_buf ngx.pread conf.max_body_size) b.bufs [] 0) bbr,
        ),
        extract_ends pread limits r,
      )
]

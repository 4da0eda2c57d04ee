-- ===== src/Bbr/Bounded.antt =====
-- The limit of `read_request_body` (src/modules/bbr.rs) on every chain of buffers, well formed or not.
use ngx_inference.Prelude.{
  ℕ, ◌+◌, ◌≤◌, ◌≡◌, refl, false, List, [], ◌∷◌, ◌++◌, Option, none, some, ℤ, arith, ltb, length,
  take, if_both, Option-cases, inl, inr, as_usize, add_usize, ◌-ℤ◌, length-append, length-take,
}
use ngx_inference.Text.{Bytes}
use ngx_inference.Config.{ModuleConfig}
use ngx_inference.Nginx.{Buf, Request, Nginx}
use ngx_inference.Body.{
  BufRead, got, err, aborted, unfinished, append_chunks, and_then, walk, isize_max, is_valid_fd,
  memory_range,
}
use ngx_inference.Body.Chunks.{ChunkRead, chunks, read_failed, no_fuel}
use ngx_inference.Body.Bounds.{RespectsCount, AtMost, read_chunks-AtMost}
use ngx_inference.Bbr.Body.{
  read_memory, read_file, read_buf, body, finish_body, read_request_body, BodyError, too_large,
  broken,
}

-- Within the limit: `total` counts every byte of the body, and has not passed `max`.
abbrev Fits : ℕ → BufRead BodyError → Type 0
Fits max (got bs total) = (length bs ≤ total) × (total ≤ max)
Fits max (err e) = Unit
Fits max aborted = Unit
Fits max unfinished = Unit

and_then-Fits :
    (max : ℕ) (m : BufRead BodyError) (next : Bytes → ℕ → BufRead BodyError)
    → Fits max m
    → ((bs : Bytes) (total : ℕ) → length bs ≤ total → total ≤ max → Fits max (next bs total))
    → Fits max (and_then m next)
and_then-Fits max (got bs total) next f k = k bs total f.0 f.1
and_then-Fits max (err e) next f k = tt
and_then-Fits max aborted next f k = tt
and_then-Fits max unfinished next f k = tt

append_chunks-Fits :
    (max size total : ℕ) (bs : Bytes) (c : ChunkRead)
    → length bs ≤ total
    → total + size ≤ max
    → max ≤ isize_max
    → AtMost size c
    → Fits max (append_chunks broken bs total c)
append_chunks-Fits max size total bs (chunks more) h k p a =
    (omega (arith, length-append bs more), omega arith)
append_chunks-Fits max size total bs read_failed h k p a = tt
append_chunks-Fits max size total bs no_fuel h k p a = tt

module _ (pread : ℤ → ℕ → ℤ → Option Bytes) (respects : RespectsCount pread) (max : ℕ)
    (possible : max ≤ isize_max) where
  read_file-Fits :
      (fd file_pos file_last : ℤ) (bs : Bytes) (total : ℕ)
      → length bs ≤ total
      → total ≤ max
      → Fits max (read_file pread max fd file_pos file_last bs total)
  unfolding read_file
  read_file-Fits fd file_pos file_last bs total h k =
      let size = as_usize (file_last -ℤ file_pos) in
      let read = read_chunks-AtMost pread respects fd file_pos size size 0 [] refl (omega arith) in
      if_both (Fits max) (ltb 0 size) _ _
        (λ some_bytes.
          if_both (Fits max) (ltb max (add_usize total size)) _ _ (λ over. tt)
            (λ fits.
              if_both (Fits max) (is_valid_fd fd) _ _
                (λ valid.
                  if_both (Fits max) (ltb isize_max size) _ _ (λ huge. tt)
                    (λ sane. append_chunks-Fits max size total bs _ h (ground arith) possible read))
                (λ invalid. (h, k))))
        (λ no_bytes. (h, k))

  memory-Fits :
      (buf : Buf) (len : ℕ) (bs : Bytes) (total : ℕ)
      → length bs ≤ total
      → total ≤ max
      → ltb isize_max len ≡ false
      → ltb max (add_usize total len) ≡ false
      → Fits max (got (bs ++ take len buf.content) (add_usize total len))
  memory-Fits buf len bs total h k sane fits =
      let whole : total + len ≤ max = ground arith in
      (
        omega (arith, length-append bs (take len buf.content), length-take len buf.content),
        omega arith,
      )

  read_memory-Fits :
      (buf : Buf) (bs : Bytes) (total : ℕ)
      → length bs ≤ total
      → total ≤ max
      → Fits max (read_memory max buf bs total)
  unfolding read_memory
  read_memory-Fits buf bs total h k = elim (Option-cases (memory_range buf.start buf.last)) [
    | inl nothing ↦ rw (nothing, read_memory) (h, k)
    | inr (len, e) ↦
        rw (e, read_memory)
          (if_both (Fits max) (ltb isize_max len) _ _ (λ huge. tt)
            (λ sane.
              if_both (Fits max) (ltb 4611686018427387903 len) _ _ (λ large. tt)
                (λ modest.
                  if_both (Fits max) (ltb 0 len) _ _
                    (λ some_bytes.
                      if_both (Fits max) (ltb max (add_usize total len)) _ _ (λ over. tt)
                        (λ fits. memory-Fits buf len bs total h k sane fits))
                    (λ no_bytes. (h, k)))))
  ]

  read_buf-Fits :
      (buf : Option Buf) (bs : Bytes) (total : ℕ)
      → length bs ≤ total
      → total ≤ max
      → Fits max (read_buf pread max buf bs total)
  unfolding read_buf
  read_buf-Fits none bs total h k = (h, k)
  read_buf-Fits (some buf) bs total h k =
      and_then-Fits max (read_memory max buf bs total) _ (read_memory-Fits buf bs total h k)
        (λ bs' total' h' k'. elim (Option-cases buf.file) [
          | inl memory ↦ rw memory (h', k')
          | inr (fd, e) ↦ rw e (read_file-Fits fd buf.file_pos buf.file_last bs' total' h' k')
        ])

  walk-Fits :
      (cl : List (Option Buf)) (bs : Bytes) (total : ℕ)
      → length bs ≤ total
      → total ≤ max
      → Fits max (walk (read_buf pread max) cl bs total)
  unfolding walk
  walk-Fits [] bs total h k = (h, k)
  walk-Fits (buf ∷ cl) bs total h k =
      and_then-Fits max (read_buf pread max buf bs total) _ (read_buf-Fits buf bs total h k)
        (λ bs' total' h' k'. walk-Fits cl bs' total' h' k')

finish_body-Fits :
    (max : ℕ) (r : Request) (b : BufRead BodyError) (bs : Bytes)
    → Fits max b
    → (finish_body r b).1 ≡ body bs
    → length bs ≤ max
unfolding finish_body
finish_body-Fits max r (got cs total) bs f e = ground (arith, f.0, f.1, e)
finish_body-Fits max r (err too_large) bs f e = cc
finish_body-Fits max r (err broken) bs f e = cc
finish_body-Fits max r aborted bs f e = cc
finish_body-Fits max r unfinished bs f e = cc

-- A body that the reader returns is at most `max_body_size` bytes long, on every chain of buffers,
-- with lengths and file ranges of every kind, negative ones included, and whatever Content-Length
-- says, when the limit fits an `isize` and `pread` returns no more than it is asked for.
pub read_request_body_bounded :
    (ngx : Nginx) (conf : ModuleConfig) (r : Request) (bs : Bytes)
    → RespectsCount ngx.pread
    → conf.max_body_size ≤ isize_max
    → (read_request_body ngx conf r).1 ≡ body bs
    → length bs ≤ conf.max_body_size
unfolding read_request_body
read_request_body_bounded ngx conf r bs respects possible e = elim (Option-cases r.request_body) [
  | inl nothing ↦ ground (arith, nothing)
  | inr (b, there) ↦
      finish_body-Fits conf.max_body_size r
        (walk (read_buf ngx.pread conf.max_body_size) b.bufs [] 0) bs
        (walk-Fits ngx.pread respects conf.max_body_size possible b.bufs [] 0 (omega arith)
          (omega arith))
        (ground (arith, there))
]

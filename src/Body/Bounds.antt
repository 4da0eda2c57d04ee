-- ===== src/Body/Bounds.antt =====
-- The chunk loop (src/modules/bbr.rs, src/epp/callbacks.rs) never gathers more bytes than the file has
-- by its buffer, whatever the single reads give.
use ngx_inference.Prelude.{
  ℕ, zero, suc, ◌+◌, ◌-◌, ◌≤◌, ◌≡◌, refl, [], ◌∷◌, ◌++◌, Option, none, some, ℤ, arith, ltb, min,
  length, Bool-cases, inl, inr, saturating_add, length-append, dec_lt,
}
use ngx_inference.Text.{Bytes}
use ngx_inference.Body.Chunks.{
  ChunkRead, chunks, read_failed, no_fuel, read_chunks, after_read, read_chunks_done,
  read_chunks_more, file_read_chunk_size,
}

-- What POSIX says of every `pread`: it never returns more than was asked for.
pub record RespectsCount (pread : ℤ → ℕ → ℤ → Option Bytes) : Type 0 where
  pub within :
      (fd : ℤ) (count : ℕ) (offset : ℤ) (bs : Bytes)
      → pread fd count offset ≡ some bs
      → length bs ≤ count

abbrev pub AtMost : ℕ → ChunkRead → Type 0
AtMost size (chunks bs) = length bs ≤ size
AtMost size read_failed = Unit
AtMost size no_fuel = Unit

after_read-AtMost :
    (size : ℕ) (o : Option Bytes) (next : Bytes → ChunkRead)
    → ((bs : Bytes) → o ≡ some bs → AtMost size (next bs))
    → AtMost size (after_read o next)
after_read-AtMost size none next h = tt
after_read-AtMost size (some []) next h = tt
after_read-AtMost size (some (b ∷ bs)) next h = h (b ∷ bs) refl

module _ (pread : ℤ → ℕ → ℤ → Option Bytes) (respects : RespectsCount pread) where
  pub read_chunks-AtMost :
      (fd file_pos : ℤ) (size fuel n : ℕ) (buffer : Bytes)
      → length buffer ≡ n
      → n ≤ size
      → AtMost size (read_chunks pread fd file_pos size fuel n buffer)
  unfolding read_chunks
  read_chunks-AtMost fd file_pos size zero n buffer e h = elim (Bool-cases (ltb n size)) [
    | inl more ↦ rw more tt
    | inr done ↦ rw done (omega (arith, e))
  ]
  read_chunks-AtMost fd file_pos size (suc fuel) n buffer e h = elim (dec_lt n size) [
    | no done ↦
        rw (read_chunks_done pread fd file_pos size (suc fuel) n buffer (omega arith))
          (omega (arith, e))
    | yes more ↦ rw (read_chunks_more pread fd file_pos size fuel n buffer more) (
        after_read-AtMost size
          (pread fd (min file_read_chunk_size (size - n)) (saturating_add file_pos n)) _
          λ bs there.
            let asked = respects.within fd _ _ bs there in
            read_chunks-AtMost fd file_pos size fuel (n + length bs) (buffer ++ bs)
              (omega (arith, length-append buffer bs, e)) (omega (arith, asked)))
  ]

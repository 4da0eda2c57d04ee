-- ===== src/Body.antt =====
-- Request bodies: reading nginx's buffer chain into one byte string. The source walks the chain
-- twice, for BBR (src/modules/bbr.rs) and for EPP (src/epp/callbacks.rs); the chunk loop, the
-- memory range and the walk itself have the same text in both, and the checks differ.
pub mod Chunks
pub mod Parts
pub mod Sound
pub mod Bounds
pub mod Ends
mod Tests
use ngx_inference.Prelude.{
  ℕ, ◌-◌, Bool, true, false, List, [], ◌∷◌, ◌++◌, Option, none, some, ℤ, pos, negsuc, leb, length,
  if◌then◌else◌, add_usize,
}
use ngx_inference.Text.{Bytes}
use ngx_inference.Nginx.{Buf}
use Chunks.{ChunkRead, chunks, read_failed, no_fuel}

-- What one buffer, or the chain, gives: the body and `total_read` so far, an error, a panic in an
-- allocation, or a loop that ran out of the model's fuel.
pub data BufRead (E : Type 0) : Type 0 where
  got : Bytes → ℕ → BufRead E
  err : E → BufRead E
  aborted unfinished : BufRead E

-- The distance from `pos` to `last`, where neither is null and `last >= pos`.
unfoldable pub memory_range : Option ℕ → Option ℕ → Option ℕ
memory_range none last = none
memory_range (some p) none = none
memory_range (some p) (some l) = if leb p l then some (l - p) else none

abbrev pub isize_max : ℕ
isize_max = 9223372036854775807

-- `fd != INVALID_FD`, where `INVALID_FD` is -1.
abbrev pub is_valid_fd : ℤ → Bool
is_valid_fd (pos n) = true
is_valid_fd (negsuc n) = elim n [ Prim.Native.Nat.zero ↦ false | _ ↦ true ]

module _ {E : Type 0} where
  -- After the chunk loop: its bytes are added, or its error is returned.
  abbrev pub append_chunks : E → Bytes → ℕ → ChunkRead → BufRead E
  append_chunks e body total (chunks bs) = got (body ++ bs) (add_usize total (length bs))
  append_chunks e body total read_failed = err e
  append_chunks e body total no_fuel = unfinished

  -- The rest of a step, after a part of it that succeeded.
  abbrev pub and_then : BufRead E → (Bytes → ℕ → BufRead E) → BufRead E
  and_then (got body total) next = next body total
  and_then (err e) next = err e
  and_then aborted next = aborted
  and_then unfinished next = unfinished

  -- `while !cl.is_null()`: the buffers in order.
  unfoldable pub walk :
      (Option Buf → Bytes → ℕ → BufRead E) → List (Option Buf) → Bytes → ℕ → BufRead E
  walk step [] body total = got body total
  walk step (buf ∷ cl) body total = and_then (step buf body total) (walk step cl)

-- ===== src/Body/Chunks.antt =====
-- The loop that reads a file-backed buffer with `pread`, and its correctness over a file.
use ngx_inference.Prelude.{
  ℕ, zero, suc, ◌+◌, ◌-◌, ◌*◌, ◌≤◌, ◌<◌, ◌≡◌, refl, ap, ◌∙◌, ◌≢◌, true, false, [], ◌∷◌, ◌++◌,
  Option, none, some, ℤ, pos, arith, min, ltb, if◌then◌else◌, length, take, drop, i64_max,
  saturating_add, length-take, length-drop, dec_lt,
}
use mathlib.Core.List.{append_assoc, append-nil}
use native.Mathlib.Nat.{zero-add, suc-add}
use ngx_inference.Text.{Bytes}

abbrev pub file_read_chunk_size : ℕ
file_read_chunk_size = 64 * 1024

pub data ChunkRead : Type 0 where
  chunks : Bytes → ChunkRead
  read_failed no_fuel : ChunkRead

-- The result of one `pread`: zero and negative are errors.
abbrev pub after_read : Option Bytes → (Bytes → ChunkRead) → ChunkRead
after_read none next = read_failed
after_read (some []) next = read_failed
after_read (some (b ∷ bs)) next = next (b ∷ bs)

-- `while bytes_read < file_size`; `buffer` is the part of `file_buffer` that is filled, which is
-- what `truncate(bytes_read)` leaves of it.
unfoldable pub read_chunks : (ℤ → ℕ → ℤ → Option Bytes) → ℤ → ℤ → ℕ → ℕ → ℕ → Bytes → ChunkRead
read_chunks pread fd file_pos file_size zero bytes_read buffer =
    if ltb bytes_read file_size then no_fuel else chunks buffer
read_chunks pread fd file_pos file_size (suc fuel) bytes_read buffer =
    let chunk_size = min file_read_chunk_size (file_size - bytes_read) in
    let offset = saturating_add file_pos bytes_read in
    elim (ltb bytes_read file_size) [
      | false ↦ chunks buffer
      | true ↦
          after_read (pread fd chunk_size offset) λ bs.
            read_chunks pread fd file_pos file_size fuel (bytes_read + length bs) (buffer ++ bs)
    ]

-- What POSIX says of `pread` on a regular file: before the end it returns at least one byte of the
-- file at that offset, and never more than were asked for; it may return fewer.
pub record ReadsFile (pread : ℤ → ℕ → ℤ → Option Bytes) (fd : ℤ) (disk : Bytes) : Type 0 where
  pub reads :
      (count offset : ℕ)
      → 0 < count
      → offset < length disk
      → (k : ℕ) × (0 < k)
        × (k ≤ count)
        × (offset + k ≤ length disk)
        × (pread fd count (pos offset) ≡ some (take k (drop offset disk)))

after_read-ne-no_fuel :
    (o : Option Bytes) (next : Bytes → ChunkRead)
    → ((bs : Bytes) → 0 < length bs → next bs ≢ no_fuel)
    → after_read o next ≢ no_fuel
after_read-ne-no_fuel none next h = ground arith
after_read-ne-no_fuel (some []) next h = ground arith
after_read-ne-no_fuel (some (b ∷ bs)) next h = h (b ∷ bs) (omega arith)

module _ (pread : ℤ → ℕ → ℤ → Option Bytes) (fd file_pos : ℤ) (size : ℕ) where
  pub read_chunks_done :
      (fuel n : ℕ) (buffer : Bytes)
      → size ≤ n
      → read_chunks pread fd file_pos size fuel n buffer ≡ chunks buffer
  unfolding read_chunks
  read_chunks_done zero n buffer h = ground arith
  read_chunks_done (suc fuel) n buffer h =
      let e : ltb n size ≡ false = ground arith in rw (e, read_chunks)

  pub read_chunks_more :
      (fuel n : ℕ) (buffer : Bytes)
      → n < size
      → read_chunks pread fd file_pos size (suc fuel) n buffer
        ≡ after_read
            (pread fd (min file_read_chunk_size (size - n)) (saturating_add file_pos n))
            (λ bs. read_chunks pread fd file_pos size fuel (n + length bs) (buffer ++ bs))
  unfolding read_chunks
  read_chunks_more fuel n buffer h = let e : ltb n size ≡ true = ground arith in rw (e, read_chunks)

  -- The chunk loop ends, whatever `pread` returns: its fuel does not run out when it is at
  -- least the number of bytes still to read.
  pub read_chunks-ne-no_fuel :
      (fuel n : ℕ) (buffer : Bytes)
      → size ≤ n + fuel
      → read_chunks pread fd file_pos size fuel n buffer ≢ no_fuel
  read_chunks-ne-no_fuel zero n buffer h =
      rw (read_chunks_done zero n buffer (omega arith)) (ground arith)
  read_chunks-ne-no_fuel (suc fuel) n buffer h = elim (dec_lt n size) [
    | yes more ↦ rw (read_chunks_more fuel n buffer more) (
        after_read-ne-no_fuel
          (pread fd (min file_read_chunk_size (size - n)) (saturating_add file_pos n)) _
          λ bs p. read_chunks-ne-no_fuel fuel (n + length bs) (buffer ++ bs) (omega arith))
    | no done ↦ rw (read_chunks_done (suc fuel) n buffer (omega arith)) (ground arith)
  ]

drop_nil : (n : ℕ) → drop {A = ℕ} n [] ≡ []
drop_nil zero = refl
drop_nil (suc n) = refl

take_nil : (n : ℕ) → take {A = ℕ} n [] ≡ []
take_nil zero = refl
take_nil (suc n) = refl

take-drop : (k m : ℕ) (xs : Bytes) → take k xs ++ take m (drop k xs) ≡ take (k + m) xs
take-drop zero m xs = rw zero-add
take-drop (suc k) m [] = rw (suc-add, take_nil m)
take-drop (suc k) m (x ∷ xs) = rw suc-add (ap (λ r. x ∷ r) (take-drop k m xs))

drop-drop : (a k : ℕ) (xs : Bytes) → drop k (drop a xs) ≡ drop (a + k) xs
drop-drop zero k xs = rw zero-add
drop-drop (suc a) k [] = rw (suc-add, drop_nil k)
drop-drop (suc a) k (x ∷ xs) = rw suc-add (drop-drop a k xs)

pub length-slice : (k a : ℕ) (xs : Bytes) → a + k ≤ length xs → length (take k (drop a xs)) ≡ k
length-slice k a xs h = omega (arith, length-take k (drop a xs), length-drop a xs)

after_read-some :
    (bs : Bytes) (next : Bytes → ChunkRead) → 0 < length bs → after_read (some bs) next ≡ next bs
after_read-some [] next h = absurd (omega arith)
after_read-some (b ∷ bs) next h = refl

saturating_add_small : (at n : ℕ) → at + n ≤ i64_max → saturating_add (pos at) n ≡ pos (at + n)
saturating_add_small at n h = ground arith

module _ (pread : ℤ → ℕ → ℤ → Option Bytes) (fd : ℤ) (disk : Bytes) (f : ReadsFile pread fd disk)
    (at size : ℕ) (inside : at + size ≤ length disk) (bounded : at + size ≤ i64_max) where
  finished :
      (fuel n : ℕ) (buffer : Bytes)
      → n ≡ size
      → read_chunks pread fd (pos at) size fuel n buffer
        ≡ chunks (buffer ++ take (size - n) (drop (at + n) disk))
  finished fuel n buffer e =
      let none_left : size - n ≡ 0 = omega arith in
      rw (none_left, append-nil)
        (read_chunks_done pread fd (pos at) size fuel n buffer (omega arith))

  joined :
      (buffer : Bytes) (n k : ℕ)
      → n + k ≤ size
      → (buffer ++ take k (drop (at + n) disk)) ++ take (size - (n + k)) (drop (at + (n + k)) disk)
        ≡ buffer ++ take (size - n) (drop (at + n) disk)
  joined buffer n k h =
      let later : at + (n + k) ≡ at + n + k = omega arith in
      let whole : k + (size - (n + k)) ≡ size - n = omega arith in
      rw (append_assoc, later, ← drop-drop (at + n) k disk, take-drop, whole)

  -- One round: some `k` more bytes of the file, at least one.
  read_chunks_round :
      (fuel n : ℕ) (buffer : Bytes)
      → n < size
      → (k : ℕ) × (0 < k)
        × (n + k ≤ size)
        × (read_chunks pread fd (pos at) size (suc fuel) n buffer
            ≡ read_chunks pread fd
                (pos at)
                size
                fuel
                (n + k)
                (buffer ++ take k (drop (at + n) disk)))
  read_chunks_round fuel n buffer h =
      let (k, positive, asked, within, got) =
        f.reads (min file_read_chunk_size (size - n)) (at + n) (omega arith) (omega arith) in
      let len : length (take k (drop (at + n) disk)) ≡ k = length-slice k (at + n) disk within in
      (
        k,
        positive,
        omega arith,
        rw (
          read_chunks_more pread fd (pos at) size fuel n buffer h,
          saturating_add_small at n (omega arith),
          got,
          after_read-some (take k (drop (at + n) disk)) _ (omega arith),
          len,
        ),
      )

  -- On a regular file the loop reads exactly the bytes from `file_pos + n` to `file_pos + size`,
  -- however short the single reads are.
  pub read_chunks_file :
      (fuel n : ℕ) (buffer : Bytes)
      → n ≤ size
      → size ≤ n + fuel
      → read_chunks pread fd (pos at) size fuel n buffer
        ≡ chunks (buffer ++ take (size - n) (drop (at + n) disk))
  read_chunks_file zero n buffer h e = finished zero n buffer (omega arith)
  read_chunks_file (suc fuel) n buffer h e = elim (dec_lt n size) [
    | yes more ↦
        let (k, positive, within, round) = read_chunks_round fuel n buffer more in
        round
        ∙ read_chunks_file fuel (n + k) (buffer ++ take k (drop (at + n) disk)) within (omega arith)
        ∙ ap chunks (joined buffer n k within)
    | no done ↦ finished (suc fuel) n buffer (omega arith)
  ]

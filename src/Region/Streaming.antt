-- ===== src/Region/Streaming.antt =====
-- A region streamed in chunks is the region read whole, whatever the chunk size is.
use libromx.Prelude.{
  ℕ, zero, suc, ◌+◌, ◌-◌, ◌^◌, ◌≤◌, ◌<◌, min, ◌≡◌, refl, sym, ap, ◌∙◌, inl, inr, [], ◌++◌, arith,
  ltb, ltb→lt, Bool-cases, length, drop, length-take, length-drop, drop-drop, take-append-take,
}
use mathlib.Core.Path.{ap₂}
use libromx.Bytes.{Bytes, slice}
use libromx.Crc32.{crc32, crc32_update, crc32_begin}
use libromx.Crc32.Stream.{crc32_update-append}
use libromx.Sha256.{Context, sha256, sha256_init, sha256_update}
use libromx.Sha256.Stream.{
  IsOpen, sha256_update-append, sha256_update-nil, sha256_update-IsOpen, sha256_init-IsOpen,
}
use libromx.Outcome.{Outcome, ok}
use libromx.Types.{RegionInfo, Io, Reader, add64}
use libromx.Region.{read_exact, chunk_loop, Hashes, hash_step, hash_region}

-- The input answers reads inside `file` with the bytes that stand there.
pub record Serves (io : Io) (file : Bytes) : Type 0 where
  pub sized : length file < 2 ^ 64
  pub reads :
      (offset size : ℕ)
      → offset + size ≤ length file
      → io.read_at offset size ≡ ok (slice offset size file)

pub length-slice :
    (offset size : ℕ) (file : Bytes)
    → offset + size ≤ length file
    → length (slice offset size file) ≡ size
length-slice offset size file h =
    omega (arith, length-take size (drop offset file), length-drop offset file)

-- An exact read inside the file succeeds with the bytes of the file.
pub read_exact-Serves :
    {io : Io} {file : Bytes} (offset size : ℕ)
    → Serves io file
    → offset + size ≤ length file
    → read_exact io offset size ≡ ok (slice offset size file)
unfolding read_exact
read_exact-Serves {file = file} offset size s h =
    rw (s.reads offset size h) (ground (arith, length-slice offset size file h))

slice-join :
    (offset position count size : ℕ) (file : Bytes)
    → position + count ≤ size
    → slice (offset + position) count file
        ++ slice (offset + (position + count)) (size - (position + count)) file
      ≡ slice (offset + position) (size - position) file
slice-join offset position count size file h =
    let e : offset + (position + count) ≡ (offset + position) + count = omega arith in
    let k : count + (size - (position + count)) ≡ size - position = omega arith in
    rw
      (
        e,
        ← drop-drop count (offset + position) file,
        take-append-take count (size - (position + count)) (drop (offset + position) file),
        k,
      )
      refl

module _ {ℓ} {S : Type ℓ} (P : S → Type 0) (f : S → Bytes → S)
    (step : S → Bytes → S × Outcome (Unit {0}))
    (succeeds : (s : S) (bytes : Bytes) → step s bytes ≡ (f s bytes, ok tt))
    (keeps : (s : S) (bytes : Bytes) → P s → P (f s bytes))
    (joins : (s : S) (xs ys : Bytes) → P s → f (f s xs) ys ≡ f s (xs ++ ys))
    (rests : (s : S) → P s → f s [] ≡ s) where
  -- A loop whose step never fails and joins what it is fed takes the rest of the region.
  pub chunk_loop-whole :
      {io : Io} {file : Bytes} (chunk offset size fuel position : ℕ) (s : S)
      → Serves io file
      → 0 < chunk
      → offset + size ≤ length file
      → position ≤ size
      → size ≤ position + fuel
      → P s
      → chunk_loop step io chunk offset size fuel position s
        ≡ (f s (slice (offset + position) (size - position) file), ok tt)
  unfolding chunk_loop
  chunk_loop-whole {file = file} chunk offset size zero position s serves pos inside le fuel p =
      let e : size - position ≡ 0 = omega arith in rw (e, rests s p) refl
  chunk_loop-whole {io} {file} chunk offset size (suc fuel) position s serves pos inside le enough
        p =
      let count = min (size - position) chunk in
      let wrap : add64 offset position ≡ offset + position = omega (arith, serves.sized) in
      elim (Bool-cases (ltb position size)) [
        | inl more ↦
            let below = ltb→lt position size more in
            let first = slice (offset + position) count file in
            rw
              (
                more,
                wrap,
                read_exact-Serves {io = io} {file = file} (offset + position) count serves
                    (omega arith),
                succeeds s first,
              )
              (chunk_loop-whole {io = io} {file = file} chunk offset size fuel (position + count)
                  (f s first) serves pos inside (omega arith) (omega arith) (keeps s first p)
                ∙ ap (λ (t : S). (t, ok tt))
                    (joins s first _ p
                      ∙ ap (f s) (slice-join offset position count size file (omega arith))))
        | inr end ↦ let e : size - position ≡ 0 = ground arith in rw (end, e, rests s p) refl
      ]

abbrev feed_hashes : Hashes → Bytes → Hashes
feed_hashes h bytes = record { sha = sha256_update h.sha bytes; crc = crc32_update h.crc bytes }

feed_hashes-nil : (h : Hashes) → IsOpen h.sha → feed_hashes h [] ≡ h
unfolding crc32_update
feed_hashes-nil h p = ap (λ (c : Context). record h { sha = c }) (sha256_update-nil h.sha p)

-- On an input that serves the file, hashing a region inside it succeeds, and gives the SHA-256
-- digest and the CRC-32 of exactly the bytes of that region, for every positive chunk size.
pub hash_region-eq :
    (reader : Reader) (region : RegionInfo) (file : Bytes)
    → Serves reader.io file
    → 0 < reader.io_chunk_size
    → region.offset + region.size ≤ length file
    → hash_region reader region
      ≡ ok (
        sha256 (slice region.offset region.size file),
        crc32 (slice region.offset region.size file),
      )
unfolding hash_region
hash_region-eq reader region file serves pos inside =
    let e : region.offset + 0 ≡ region.offset = omega arith in
    let k : region.size - 0 ≡ region.size = omega arith in
    let whole =
      chunk_loop-whole (λ (h : Hashes). IsOpen h.sha) feed_hashes hash_step (λ s bytes. refl)
        (λ s bytes p. sha256_update-IsOpen s.sha bytes p)
        (λ s xs ys p.
          ap₂ (λ (c : Context) (r : ℕ). record { sha = c; crc = r })
            (sha256_update-append s.sha xs ys p) (sym (crc32_update-append xs ys s.crc)))
        feed_hashes-nil reader.io_chunk_size region.offset region.size region.size 0
        (record { sha = sha256_init; crc = crc32_begin }) serves pos inside (omega arith)
        (omega arith) sha256_init-IsOpen in
    rw (whole, e, k) (unfold sha256 crc32 in refl)

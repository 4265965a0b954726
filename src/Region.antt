-- ===== src/Region.antt =====
-- src/region.c: the regions of an open container, exact and partial reads of a region, and the loop
-- that streams a region in chunks of `io_chunk_size` bytes, as romx_reader_copy_region and
-- romx_hash_region run it. Null pointers, failed allocation and the test against SIZE_MAX, which
-- is UINT64_MAX here, are left out.
pub mod Streaming
pub mod Reads
use libromx.Prelude.{
  ℕ, zero, suc, ◌+◌, ◌-◌, ◌*◌, ◌/◌, ◌%◌, ◌^◌, ◌≤◌, ◌<◌, min, bit_and, bit_or, bit_xor, ◌≡◌, refl,
  sym, ap, ◌∙◌, ◌≢◌, ◌↔◌, ◌⊎◌, inl, inr, Bool, true, false, not, ◌&&◌, ◌||◌, Option, none, some,
  List, [], ◌∷◌, ◌++◌, map, append_assoc, append-nil, arith, ltb, leb, ◌==◌, if◌then◌else◌, ltb→lt,
  lt→ltb, ==_iff, Bool-cases, Option-cases, length, get_or, set, take, drop, replicate, All,
  length-append, length-set, take-append-drop, length-take, length-drop, length-replicate, take-all,
  take-append, drop-append, drop-drop, take-append-take, All-append, All-take, All-drop, All-get_or,
}
use libromx.Bytes.{Bytes}
use libromx.Crc32.{crc32_begin, crc32_update, crc32_finish}
use libromx.Sha256.{Context, sha256_init, sha256_update, sha256_finish}
use libromx.Outcome.{
  Code, invalid_argument, truncated, range, Outcome, ok, fail, error_set, refuse_if, offset_unknown,
  ◌>>=◌, ◌>>◌,
}
use libromx.Types.{RegionInfo, Info, Io, Reader, add64}

-- romx_region_t, with the values that no constant names.
pub data Region : Type 0 where
  payload metadata cover payload_index mutable_region immutable : Region
  other : ℕ → Region

unfoldable pub get_region_info : Reader → Region → Outcome RegionInfo
get_region_info reader payload = ok reader.info.payload
get_region_info reader metadata = ok reader.info.metadata
get_region_info reader cover = ok reader.info.cover
get_region_info reader payload_index = ok reader.info.payload_index
get_region_info reader mutable_region = ok reader.info.mutable_region
get_region_info reader immutable = ok (record { offset = 0; size = reader.info.immutable_size })
get_region_info reader (other n) = error_set invalid_argument offset_unknown

-- The tail that every read ends in: a count other than the one asked for is a truncation.
abbrev pub expect_size : ℕ → ℕ → Bytes → Outcome Bytes
expect_size offset count bytes =
    if length bytes == count then ok bytes else error_set truncated (add64 offset (length bytes))

unfoldable pub read_exact : Io → ℕ → ℕ → Outcome Bytes
read_exact io offset size = do bytes ← io.read_at offset size; expect_size offset size bytes

-- The tail that the bounded reads share: `want` bytes at most of what is left behind `offset` in an
-- extent of `size` bytes at `base`; no callback is made for an empty read.
unfoldable pub read_window : Io → ℕ → ℕ → ℕ → ℕ → Outcome Bytes
read_window io base size offset want =
    let count = min (size - offset) want in
    let bytes = read_exact io (add64 base offset) count in if count == 0 then ok [] else bytes

-- `buffer_size` bytes at most from `region_offset` on; the bytes that the buffer gets.
unfoldable pub read_region : Reader → Region → ℕ → ℕ → Outcome Bytes
unfolding get_region_info
read_region reader region region_offset buffer_size = do
  info ← get_region_info reader region
  refuse_if (ltb info.size region_offset) range region_offset
  read_window reader.io info.offset info.size region_offset buffer_size

module _ {ℓ} {S : Type ℓ} where
  -- Go on after a step that succeeded.
  abbrev pub continue :
      S × Outcome (Unit {0}) → (S → S × Outcome (Unit {0})) → S × Outcome (Unit {0})
  continue (s, ok _) next = next s
  continue (s, fail e) next = (s, fail e)

  -- What a round does with the bytes that it read.
  abbrev pub feed :
      S → Outcome Bytes → (S → Bytes → S × Outcome (Unit {0})) → S × Outcome (Unit {0})
  feed s (ok bytes) step = step s bytes
  feed s (fail e) step = (s, fail e)

  -- `while (position < size)`: a chunk is read and handed to `step`, whose failure ends the loop.
  -- A chunk has a byte at least, so `size` rounds are enough.
  unfoldable pub chunk_loop :
      (S → Bytes → S × Outcome (Unit {0})) → Io → ℕ → ℕ → ℕ → ℕ → ℕ → S → S × Outcome (Unit {0})
  chunk_loop step io chunk offset size zero position s = (s, ok tt)
  chunk_loop step io chunk offset size (suc fuel) position s =
      let count = min (size - position) chunk in
      let fed = feed s (read_exact io (add64 offset position) count) step in
      let all = continue fed (chunk_loop step io chunk offset size fuel (position + count)) in
      if ltb position size then all else (s, ok tt)

-- The caller's sink: what its callbacks answer, given the chunks that it has taken before.
pub record Sink : Type 0 where
  pub write : List Bytes → Bytes → Outcome (Unit {0})
  pub flush : Option (List Bytes → Outcome (Unit {0}))

sink_step : Sink → List Bytes → Bytes → List Bytes × Outcome (Unit {0})
sink_step sink taken bytes = (taken ++ (bytes ∷ []), sink.write taken bytes)

flush_sink : Option (List Bytes → Outcome (Unit {0})) → List Bytes → List Bytes × Outcome (Unit {0})
flush_sink none taken = (taken, ok tt)
flush_sink (some flush) taken = (taken, flush taken)

copy_info : Reader → Sink → Outcome RegionInfo → List Bytes × Outcome (Unit {0})
copy_info reader sink (fail e) = ([], fail e)
copy_info reader sink (ok info) =
    continue
      (chunk_loop (sink_step sink) reader.io reader.io_chunk_size info.offset info.size info.size 0
        [])
      (flush_sink sink.flush)

-- The chunks that the sink was handed, and the result.
unfoldable pub copy_region : Reader → Region → Sink → List Bytes × Outcome (Unit {0})
unfolding get_region_info sink_step flush_sink copy_info
copy_region reader region sink = copy_info reader sink (get_region_info reader region)

-- The two running digests of the hash loop.
pub record Hashes : Type 0 where
  pub sha : Context
  pub crc : ℕ

pub hash_step : Hashes → Bytes → Hashes × Outcome (Unit {0})
hash_step h bytes =
    (record { sha = sha256_update h.sha bytes; crc = crc32_update h.crc bytes }, ok tt)

finish_hashes : Hashes × Outcome (Unit {0}) → Outcome (Bytes × ℕ)
finish_hashes (h, ok _) = ok (sha256_finish h.sha, crc32_finish h.crc)
finish_hashes (h, fail e) = fail e

-- The SHA-256 digest and the CRC-32 of a region; a caller that passes no `crc32` drops the second.
unfoldable pub hash_region : Reader → RegionInfo → Outcome (Bytes × ℕ)
unfolding finish_hashes hash_step
hash_region reader region = finish_hashes (
    chunk_loop hash_step reader.io reader.io_chunk_size region.offset region.size region.size 0
      (record { sha = sha256_init; crc = crc32_begin }))

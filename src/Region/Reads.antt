-- ===== src/Region/Reads.antt =====
-- What the read operations return, on every input and on one that serves a file.
use libromx.Prelude.{
  ℕ, ◌+◌, ◌-◌, ◌≤◌, min, ◌≡◌, refl, inl, inr, arith, ltb, ◌==◌, if◌then◌else◌, Bool-cases, length,
}
use libromx.Bytes.{Bytes, slice}
use libromx.Outcome.{range, ok, error_set, refuse_if, >>=-eq-ok}
use libromx.Types.{RegionInfo, Io, Reader, add64}
use libromx.Region.{Region, get_region_info, read_exact, read_window, read_region}
use libromx.Region.Streaming.{Serves, read_exact-Serves}

pub length-read_exact :
    (io : Io) (offset size : ℕ) {bytes : Bytes}
    → read_exact io offset size ≡ ok bytes
    → length bytes ≡ size
unfolding read_exact
length-read_exact io offset size h =
    let (got, r, e) = >>=-eq-ok (io.read_at offset size) _ h in ground arith

pub length-read_window :
    (io : Io) (base size offset want : ℕ) {bytes : Bytes}
    → read_window io base size offset want ≡ ok bytes
    → length bytes ≡ min (size - offset) want
unfolding read_window
length-read_window io base size offset want {bytes} h =
    elim (Bool-cases (min (size - offset) want == 0)) [
      | inl none_left ↦ ground arith
      | inr some_left ↦
          length-read_exact io (add64 base offset) (min (size - offset) want) (rw some_left at h)
    ]

-- On an extent that lies in the served file the window is the part of the file.
pub read_window-Serves :
    {io : Io} {file : Bytes} (base size offset want : ℕ)
    → Serves io file
    → base + size ≤ length file
    → offset ≤ size
    → read_window io base size offset want
      ≡ ok (slice (base + offset) (min (size - offset) want) file)
unfolding read_window
read_window-Serves {io} {file} base size offset want serves inside le =
    let count = min (size - offset) want in
    let wrap : add64 base offset ≡ base + offset = omega (arith, serves.sized) in
    elim (Bool-cases (count == 0)) [
      | inl none_left ↦ let e : count ≡ 0 = ground arith in rw (none_left, e) refl
      | inr some_left ↦
          rw (some_left, wrap)
            (read_exact-Serves {io = io} {file = file} (base + offset) count serves (omega arith))
    ]

-- A read that succeeds has filled exactly the bytes that the region still has, up to the buffer.
pub length-read_region :
    (reader : Reader) (region : Region) (offset size : ℕ) {info : RegionInfo} {bytes : Bytes}
    → get_region_info reader region ≡ ok info
    → read_region reader region offset size ≡ ok bytes
    → (offset ≤ info.size) × (length bytes ≡ min (info.size - offset) size)
unfolding read_region
length-read_region reader region offset size {info} {bytes} found h =
    let (_, inside, got) =
      >>=-eq-ok (refuse_if (ltb info.size offset) range offset) _ (rw found at h) in
    (ground arith, length-read_window reader.io info.offset info.size offset size got)

-- A read of a region that lies in the served file gives the bytes of the file, and fails with a range
-- error exactly when it starts behind the region.
pub read_region-Serves :
    (reader : Reader) (region : Region) (offset size : ℕ) (file : Bytes) {info : RegionInfo}
    → get_region_info reader region ≡ ok info
    → Serves reader.io file
    → info.offset + info.size ≤ length file
    → read_region reader region offset size ≡ (
        if ltb info.size offset
        then error_set range offset
        else ok (slice (info.offset + offset) (min (info.size - offset) size) file))
unfolding read_region
read_region-Serves reader region offset size file {info} found serves inside =
    rw found (elim (Bool-cases (ltb info.size offset)) [
      | inl past ↦ rw past refl
      | inr within ↦ rw within (
          read_window-Serves {io = reader.io} {file = file} info.offset info.size offset size serves
            inside (ground arith))
    ])

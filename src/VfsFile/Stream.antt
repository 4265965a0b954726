-- ===== src/VfsFile/Stream.antt =====
-- What reads through a cursor of src/vfs_file.c give.
use libromx.Prelude.{
  ℕ, ◌+◌, ◌-◌, ◌≤◌, ◌<◌, min, ◌≡◌, refl, ap, ◌∙◌, inl, inr, false, ◌||◌, ◌++◌, arith, ltb, leb,
  ◌==◌, if◌then◌else◌, Bool-cases, length,
}
use mathlib.Core.Path.{subst}
use libromx.Outcome.{invalid_argument, range, Outcome, ok, error_set, ◌>>=◌}
use libromx.Bytes.{Bytes, slice}
use libromx.Region.Streaming.{Serves, length-slice}
use libromx.Bytes.Slices.{slice-append}
use libromx.Ridx.Lookup.{entry_at, read_entry}
use libromx.Ridx.Lookup.Unique.{read_entry-Serves}
use libromx.Types.{EntryInfo, add64}
use libromx.VfsFile.{VfsFile, vfs_read}

-- The cursor stands on an entry whose data lies in the served file.
pub record IsCursor (file : VfsFile) (bytes : Bytes) (start : ℕ) : Type 0 where
  pub serves : Serves file.reader.io bytes
  pub entry : EntryInfo
  pub found : entry_at invalid_argument file.reader file.entry_index ≡ ok entry
  pub starts : entry.data_offset ≡ start
  pub sized : entry.data_size ≡ file.size
  pub inside : start + file.size ≤ length bytes

-- On a cursor whose entry lies in the served file, a read gives the bytes from the position on, as many as are left and wanted, and moves the position
-- behind them; at the end or behind it, it gives nothing.
pub vfs_read-Serves :
    (file : VfsFile) (bytes : Bytes) (start size : ℕ)
    → IsCursor file bytes start
    → vfs_read file size ≡ (
      record file { position = file.position + min (file.size - file.position) size },
      ok (slice (start + file.position) (min (file.size - file.position) size) bytes),
    )
unfolding vfs_read
vfs_read-Serves file bytes start size c =
    elim (Bool-cases (size == 0 || leb file.size file.position)) [
      | inl empty ↦
          let z : min (file.size - file.position) size ≡ 0 = ground (arith, empty) in
          let p : file.position + 0 ≡ file.position = omega arith in rw (empty, z, p) refl
      | inr some_left ↦
          let e = c.entry in
          let count = min (file.size - file.position) size in
          let inside = c.inside in
          let sized = c.serves.sized in
          let left : file.position < file.size = ground (arith, some_left) in
          let within : ltb file.size file.position ≡ false = ground (arith, some_left) in
          let read : read_entry file.reader file.entry_index file.position size
              ≡ ok (slice (start + file.position) count bytes) =
            rw within at (
              subst
                (λ (k : ℕ × ℕ). read_entry file.reader file.entry_index file.position size ≡ (
                  if ltb k.1 file.position
                  then error_set range file.position
                  else ok (slice (k.0 + file.position) (min (k.1 - file.position) size) bytes)))
                (λ i. (c.starts i, c.sized i))
                (read_entry-Serves file.reader file.entry_index file.position size bytes c.found
                  c.serves (omega (arith, c.starts, c.sized, c.inside)))) in
          let n = length-slice (start + file.position) count bytes (omega (arith, inside, left)) in
          let wrap : add64 file.position count ≡ file.position + count =
            omega (arith, inside, sized, left) in
          rw (some_left, read, n, wrap) refl
    ]

-- What two results read one after the other give together.
abbrev pub joined : Outcome Bytes → Outcome Bytes → Outcome Bytes
joined first second = first >>= λ a. second >>= λ b. ok (a ++ b)

-- On a cursor whose entry lies in the served file, two reads one after the other give what one read of both sizes gives, and leave the cursor at the
-- same position.
pub vfs_read-vfs_read :
    (file : VfsFile) (bytes : Bytes) (start n m : ℕ)
    → IsCursor file bytes start
    → ((vfs_read (vfs_read file n).0 m).0 ≡ (vfs_read file (n + m)).0)
      × (joined (vfs_read file n).1 (vfs_read (vfs_read file n).0 m).1 ≡ (vfs_read file (n + m)).1)
vfs_read-vfs_read file bytes start n m c =
    let a = min (file.size - file.position) n in
    let moved : VfsFile = record file { position = file.position + a } in
    let c' : IsCursor moved bytes start = record {
      serves = c.serves;
      entry = c.entry;
      found = c.found;
      starts = c.starts;
      sized = c.sized;
      inside = c.inside;
    } in
    let b = min (file.size - (file.position + a)) m in
    let total : a + b ≡ min (file.size - file.position) (n + m) = omega arith in
    let place : start + (file.position + a) ≡ (start + file.position) + a = omega arith in
    let sum : file.position + a + b ≡ file.position + (a + b) = omega arith in
    rw
      (
        vfs_read-Serves file bytes start n c,
        vfs_read-Serves moved bytes start m c',
        vfs_read-Serves file bytes start (n + m) c,
      )
      (
        ap (λ (k : ℕ). record file { position = k })
            (sum ∙ ap (λ (k : ℕ). file.position + k) total),
        ap ok (
            rw place (slice-append (start + file.position) a b bytes)
            ∙ ap (λ (k : ℕ). slice (start + file.position) k bytes) total),
      )

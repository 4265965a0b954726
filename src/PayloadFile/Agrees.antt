-- ===== src/PayloadFile/Agrees.antt =====
-- The cursors of src/payload_file.c and of src/vfs_file.c do the same.
use libromx.Prelude.{
  ℕ, ◌+◌, ◌-◌, ◌^◌, ◌≡◌, refl, ap, ◌∙◌, ltb, inl, inr, ◌||◌, leb, ◌==◌, Bool-cases,
}
use libromx.Outcome.{Outcome, ok, fail, ◌>>=◌}
use libromx.Bytes.{Bytes}
use libromx.Cursor.{
  ℤ, pos, negsuc, Origin, seek_start, seek_current, seek_end, seek_other, seek_base, add_offset,
}
use libromx.PayloadFile.{
  PayloadFile, payload_add_offset, payload_seek_base, payload_moved, payload_seek, payload_advanced,
  payload_read,
}
use libromx.Ridx.Lookup.{read_entry}
use libromx.VfsFile.{VfsFile, vfs_moved, vfs_seek, vfs_advanced, vfs_read}

abbrev pub as_vfs : PayloadFile → VfsFile
as_vfs file = record {
  reader = file.reader;
  entry_index = file.entry_index;
  size = file.size;
  position = file.position;
}

abbrev pub as_vfs_pair {ℓ} : {A : Type ℓ} → PayloadFile × A → VfsFile × A
as_vfs_pair (file, a) = (as_vfs file, a)

moved-agrees :
    (file : PayloadFile) (r : Outcome ℕ)
    → as_vfs_pair (payload_moved file r) ≡ vfs_moved (as_vfs file) r
moved-agrees file (ok target) = refl
moved-agrees file (fail e) = refl

advanced-agrees :
    (file : PayloadFile) (r : Outcome Bytes)
    → as_vfs_pair (payload_advanced file r) ≡ vfs_advanced (as_vfs file) r
advanced-agrees file (ok bytes) = refl
advanced-agrees file (fail e) = refl

-- The two additions, each written out in its file, are one function, and so are the two switches.
payload_add_offset-eq :
    (base : ℕ) (offset : ℤ) → payload_add_offset base offset ≡ add_offset base offset
unfolding payload_add_offset add_offset
payload_add_offset-eq base (pos n) = elim (Bool-cases (ltb (2 ^ 64 - 1 - n) base)) [
  | inl over ↦ rw over refl
  | inr fits ↦ rw fits refl
]
payload_add_offset-eq base (negsuc n) = elim (Bool-cases (ltb base (n + 1))) [
  | inl before ↦ rw before refl
  | inr fits ↦ rw fits refl
]

payload_seek_base-eq :
    (file : PayloadFile) (origin : Origin)
    → payload_seek_base file origin ≡ seek_base file.size file.position origin
unfolding payload_seek_base seek_base
payload_seek_base-eq file seek_start = refl
payload_seek_base-eq file seek_current = refl
payload_seek_base-eq file seek_end = refl
payload_seek_base-eq file (seek_other n) = refl

payload_target-eq :
    (file : PayloadFile) (offset : ℤ) (origin : Origin)
    → (payload_seek_base file origin >>= λ base. payload_add_offset base offset)
      ≡ (seek_base file.size file.position origin >>= λ base. add_offset base offset)
payload_target-eq file offset origin i =
    payload_seek_base-eq file origin i >>= λ base. payload_add_offset-eq base offset i

-- Seeks and reads of a payload handle answer as those of a VFS file in the same state, and leave it in
-- the same state.
pub payload_file-agrees :
    (file : PayloadFile) (offset : ℤ) (origin : Origin) (size : ℕ)
    → (as_vfs_pair (payload_seek file offset origin) ≡ vfs_seek (as_vfs file) offset origin)
      × (as_vfs_pair (payload_read file size) ≡ vfs_read (as_vfs file) size)
unfolding payload_seek payload_read vfs_seek vfs_read
payload_file-agrees file offset origin size = (
  ap (λ (r : Outcome ℕ). as_vfs_pair (payload_moved file r)) (payload_target-eq file offset origin)
      ∙ moved-agrees file
          (seek_base file.size file.position origin >>= λ base. add_offset base offset),
  elim (Bool-cases (size == 0 || leb file.size file.position)) [
    | inl empty ↦ rw empty refl
    | inr some_left ↦
        rw some_left
          (advanced-agrees file (read_entry file.reader file.entry_index file.position size))
  ],
)

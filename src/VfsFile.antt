-- ===== src/VfsFile.antt =====
-- src/vfs_file.c: a read-only cursor on one entry. A call that may change the cursor gives the cursor
-- after it and what it returns. Null pointers, failed allocation and `close` are left out.
pub mod Stream
use libromx.Prelude.{
  ℕ, zero, suc, ◌+◌, ◌-◌, ◌*◌, ◌/◌, ◌%◌, ◌^◌, ◌≤◌, ◌<◌, min, bit_and, bit_or, bit_xor, ◌≡◌, refl,
  sym, ap, ◌∙◌, ◌≢◌, ◌↔◌, ◌⊎◌, inl, inr, Bool, true, false, not, ◌&&◌, ◌||◌, Option, none, some,
  List, [], ◌∷◌, ◌++◌, map, append_assoc, append-nil, arith, ltb, leb, ◌==◌, if◌then◌else◌, ltb→lt,
  lt→ltb, ==_iff, Bool-cases, Option-cases, length, get_or, get_elem?, set, take, drop, replicate,
  All, length-append, length-set, take-append-drop, length-take, length-drop, length-replicate,
  take-all, take-append, drop-append, drop-drop, take-append-take, All-append, All-take, All-drop,
  All-get_or, get_elem?-append, get_elem?-concat, All-map, All-get_elem?,
}
use libromx.Outcome.{
  Code, invalid_argument, out_of_memory, truncated, unsupported, entry_not_found, range, Outcome,
  ok, fail, error_set, refuse_if, offset_unknown, ◌>>=◌, ◌>>◌,
}
use libromx.Bytes.{Bytes}
use libromx.Cursor.{ℤ, Origin, seek_base, add_offset}
use libromx.Ridx.Lookup.{find_entry, get_entrypoint, read_entry}
use libromx.Types.{EntryInfo, Reader, add64}

pub record VfsFile : Type 0 where
  pub reader : Reader
  pub entry_index : ℕ
  pub size : ℕ
  pub position : ℕ

abbrev pub vfs_create : Reader → EntryInfo → VfsFile
vfs_create reader entry = record {
  reader = reader;
  entry_index = entry.index;
  size = entry.data_size;
  position = 0;
}

unfoldable pub vfs_open : Reader → Bytes → Outcome VfsFile
vfs_open reader virtual_path = do
  refuse_if (length virtual_path == 0) invalid_argument offset_unknown
  entry ← find_entry reader virtual_path
  ok (vfs_create reader entry)

unfoldable pub vfs_open_entrypoint : Reader → Outcome VfsFile
vfs_open_entrypoint reader = do entry ← get_entrypoint reader; ok (vfs_create reader entry)

abbrev pub vfs_get_size : VfsFile → ℕ
vfs_get_size file = file.size

abbrev pub vfs_tell : VfsFile → ℕ
vfs_tell file = file.position

-- A seek that fails leaves the cursor where it is.
abbrev pub vfs_moved : VfsFile → Outcome ℕ → VfsFile × Outcome ℕ
vfs_moved file (ok target) = (record file { position = target }, ok target)
vfs_moved file (fail e) = (file, fail e)

unfoldable pub vfs_seek : VfsFile → ℤ → Origin → VfsFile × Outcome ℕ
vfs_seek file offset origin =
    vfs_moved file (seek_base file.size file.position origin >>= λ base. add_offset base offset)

abbrev pub vfs_advanced : VfsFile → Outcome Bytes → VfsFile × Outcome Bytes
vfs_advanced file (ok bytes) =
    (record file { position = add64 file.position (length bytes) }, ok bytes)
vfs_advanced file (fail e) = (file, fail e)

unfoldable pub vfs_read : VfsFile → ℕ → VfsFile × Outcome Bytes
vfs_read file size =
    let after = vfs_advanced file (read_entry file.reader file.entry_index file.position size) in
    if size == 0 || leb file.size file.position then (file, ok []) else after

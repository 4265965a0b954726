-- ===== src/MutableFile.antt =====
-- src/mutable.c: the read-only cursor on the data of an object. A call that may change the cursor gives
-- the cursor after it and what it returns. Null pointers, failed allocation and `close` are left out.
use libromx.Prelude.{ℕ, ◌||◌, [], leb, ◌==◌, if◌then◌else◌, length}
use libromx.Outcome.{Outcome, ok, fail, ◌>>=◌}
use libromx.Bytes.{Bytes}
use libromx.Cursor.{ℤ, Origin, seek_base, add_offset}
use libromx.Mutable.Objects.{find_mutable_object}
use libromx.Region.{read_window}
use libromx.Types.{Reader, add64}

pub record MutableFile : Type 0 where
  pub reader : Reader
  pub absolute_offset : ℕ
  pub size : ℕ
  pub position : ℕ

unfoldable pub mutable_file_open : Reader → ℕ → Bytes → Outcome MutableFile
mutable_file_open reader object_namespace key = do
  object ← find_mutable_object reader object_namespace key
  ok (record {
    reader = reader;
    absolute_offset = add64 reader.info.mutable_region.offset object.data_offset;
    size = object.data_size;
    position = 0;
  })

abbrev pub mutable_file_get_size : MutableFile → ℕ
mutable_file_get_size file = file.size

abbrev pub mutable_file_tell : MutableFile → ℕ
mutable_file_tell file = file.position

abbrev pub mutable_moved : MutableFile → Outcome ℕ → MutableFile × Outcome ℕ
mutable_moved file (ok target) = (record file { position = target }, ok target)
mutable_moved file (fail e) = (file, fail e)

unfoldable pub mutable_file_seek : MutableFile → ℤ → Origin → MutableFile × Outcome ℕ
mutable_file_seek file offset origin =
    mutable_moved file (seek_base file.size file.position origin >>= λ base. add_offset base offset)

abbrev pub mutable_advanced : MutableFile → Outcome Bytes → MutableFile × Outcome Bytes
mutable_advanced file (ok bytes) =
    (record file { position = add64 file.position (length bytes) }, ok bytes)
mutable_advanced file (fail e) = (file, fail e)

unfoldable pub mutable_file_read : MutableFile → ℕ → MutableFile × Outcome Bytes
mutable_file_read file size =
    let bytes = read_window file.reader.io file.absolute_offset file.size file.position size in
    let after = mutable_advanced file bytes in
    if size == 0 || leb file.size file.position then (file, ok []) else after

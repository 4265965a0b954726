-- ===== src/MutableWrite/Extent/Record.antt =====
-- The record of an object fills one entry of the directory.
use libromx.Prelude.{ℕ, ◌%◌, ◌^◌, ◌≤◌, ◌≡◌, refl, ◌∙◌, arith, length, replicate}
use libromx.Bytes.{write_le16, write_le32, write_le64, copy_at}
use libromx.Bytes.Writes.{length-write_le16, length-write_le32, length-write_le64, length-copy_at}
use libromx.Crc32.{crc32}
use libromx.Mutable.Slots.{ment_magic}
use libromx.MutableWrite.Extent.{entry_body, build_entry}
use libromx.Types.{MutableObject}

length-entry_body :
    (state : ℕ) (object : MutableObject)
    → length object.key ≤ 448
    → length (entry_body state object) ≡ 512
unfolding entry_body
length-entry_body state object le =
    let key_size = length object.key in
    let e0 = copy_at (replicate 512 0) 0 ment_magic in
    let e1 = write_le16 e0 0x04 state in
    let e2 = write_le16 e1 0x06 object.object_namespace in
    let e3 = write_le32 e2 0x0c (key_size % 2 ^ 32) in
    let e4 = write_le64 e3 0x10 object.data_offset in
    let e5 = write_le64 e4 0x18 object.data_capacity in
    let e6 = write_le64 e5 0x20 object.data_size in
    let e7 = write_le64 e6 0x28 object.generation in
    let e8 = write_le64 e7 0x30 object.modified_unix_seconds in
    let e9 = write_le32 e8 0x38 object.data_crc32 in
    let n0 : length e0 ≡ 512 = refl in
    let n9 : length e9 ≡ 512 =
      length-write_le32 e8 0x38 object.data_crc32
      ∙ length-write_le64 e7 0x30 object.modified_unix_seconds
      ∙ length-write_le64 e6 0x28 object.generation
      ∙ length-write_le64 e5 0x20 object.data_size
      ∙ length-write_le64 e4 0x18 object.data_capacity
      ∙ length-write_le64 e3 0x10 object.data_offset
      ∙ length-write_le32 e2 0x0c (key_size % 2 ^ 32)
      ∙ length-write_le16 e1 0x06 object.object_namespace
      ∙ length-write_le16 e0 0x04 state
      ∙ n0 in
    length-copy_at e9 0x40 object.key (omega (arith, n9, le)) ∙ n9

pub length-build_entry :
    (state : ℕ) (object : MutableObject)
    → length object.key ≤ 448
    → length (build_entry state object) ≡ 512
unfolding build_entry
length-build_entry state object le =
    length-write_le32 (entry_body state object) 0x3c (crc32 (entry_body state object))
    ∙ length-entry_body state object le

-- ===== src/Bytes/Writes.antt =====
-- A write of a field or of a range keeps the size of the array.
use libromx.Prelude.{
  ℕ, zero, suc, ◌+◌, ◌*◌, ◌/◌, ◌%◌, ◌^◌, ◌≤◌, ◌≡◌, refl, ◌∙◌, ◌++◌, arith, length, set, take, drop,
  length-append, length-set, length-take, length-drop,
}
use libromx.Bytes.{Bytes, write_le16, write_le32, write_le64, write_le_loop, copy_at}

length-write_le_loop :
    (left index : ℕ) (bytes : Bytes) (p value : ℕ)
    → length (write_le_loop left index bytes p value) ≡ length bytes
unfolding write_le_loop
length-write_le_loop zero index bytes p value = refl
length-write_le_loop (suc left) index bytes p value =
    length-write_le_loop left (index + 1) (set bytes (p + index) (value / 2 ^ (index * 8) % 256)) p
      value
    ∙ length-set bytes (p + index) (value / 2 ^ (index * 8) % 256)

pub length-write_le16 :
    (bytes : Bytes) (p value : ℕ) → length (write_le16 bytes p value) ≡ length bytes
unfolding write_le16
length-write_le16 bytes p value =
    length-set (set bytes p (value % 256)) (p + 1) (value / 2 ^ 8 % 256)
    ∙ length-set bytes p (value % 256)

pub length-write_le32 :
    (bytes : Bytes) (p value : ℕ) → length (write_le32 bytes p value) ≡ length bytes
unfolding write_le32
length-write_le32 bytes p value = length-write_le_loop 4 0 bytes p value

pub length-write_le64 :
    (bytes : Bytes) (p value : ℕ) → length (write_le64 bytes p value) ≡ length bytes
unfolding write_le64
length-write_le64 bytes p value = length-write_le_loop 8 0 bytes p value

pub length-copy_at :
    (target : Bytes) (offset : ℕ) (source : Bytes)
    → offset + length source ≤ length target
    → length (copy_at target offset source) ≡ length target
length-copy_at target offset source h =
    let rest = drop (offset + length source) target in
    let a = length-append (take offset target) (source ++ rest) in
    let b = length-append source rest in
    let c = length-take offset target in
    let d = length-drop (offset + length source) target in omega (arith, a, b, c, d)

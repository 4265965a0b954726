-- ===== src/Bytes.antt =====
-- Byte arrays and their little-endian fields: read_le16/32/64, write_le16/32/64, bytes_are_zero,
-- memcpy and memset, which src/footer.c, src/ridx.c, src/mutable.c, src/mutable_write.c and
-- src/writer.c each define or call. An array is the list of its bytes, a pointer into it an offset.
pub mod Fields
pub mod Slices
pub mod Writes
use Prim.Native.Char.{code}
use Prim.Native.String.{String}
use libromx.Prelude.{
  ℕ, zero, suc, ◌+◌, ◌-◌, ◌*◌, ◌/◌, ◌%◌, ◌^◌, ◌≤◌, ◌<◌, bit_or, Bool, true, false, ◌&&◌, List, [],
  ◌∷◌, ◌++◌, ◌==◌, if◌then◌else◌, length, get_or, set, take, drop, replicate, All,
}

abbrev pub Bytes : Type 0
Bytes = List ℕ

-- The bytes of an ASCII literal, without the terminating zero.
abbrev pub c_string : String → Bytes
c_string String.[] = []
c_string (String.◌∷◌ c rest) = code c ∷ c_string rest

abbrev pub IsByte : ℕ → Type 0
IsByte b = b < 256

abbrev pub byte_at : Bytes → ℕ → ℕ
byte_at bytes i = get_or bytes i 0

abbrev pub slice : ℕ → ℕ → Bytes → Bytes
slice offset size bytes = take size (drop offset bytes)

unfoldable pub read_le16 : Bytes → ℕ → ℕ
read_le16 bytes p = bit_or (byte_at bytes p) (byte_at bytes (p + 1) * 2 ^ 8)

unfoldable pub read_le32 : Bytes → ℕ → ℕ
read_le32 bytes p =
    bit_or
      (bit_or (bit_or (byte_at bytes p) (byte_at bytes (p + 1) * 2 ^ 8))
        (byte_at bytes (p + 2) * 2 ^ 16))
      (byte_at bytes (p + 3) * 2 ^ 24)

-- `for (index = 0; index < 8; ++index) value |= (uint64_t)bytes[index] << (index * 8);`
read_le_loop : ℕ → ℕ → ℕ → Bytes → ℕ → ℕ
read_le_loop zero index value bytes p = value
read_le_loop (suc left) index value bytes p =
    read_le_loop left (index + 1) (bit_or value (byte_at bytes (p + index) * 2 ^ (index * 8))) bytes
      p

unfoldable pub read_le64 : Bytes → ℕ → ℕ
unfolding read_le_loop
read_le64 bytes p = read_le_loop 8 0 0 bytes p

-- `for (index = 0; index < size; ++index) if (bytes[index] != 0) return 0; return 1;`
unfoldable pub bytes_are_zero : Bytes → Bool
bytes_are_zero [] = true
bytes_are_zero (b ∷ bytes) = b == 0 && bytes_are_zero bytes

-- memcpy(target + offset, source, length of source)
abbrev pub copy_at : Bytes → ℕ → Bytes → Bytes
copy_at target offset source =
    take offset target ++ (source ++ drop (offset + length source) target)

unfoldable pub write_le16 : Bytes → ℕ → ℕ → Bytes
write_le16 bytes p value = set (set bytes p (value % 256)) (p + 1) (value / 2 ^ 8 % 256)

-- `for (index = 0; index < n; ++index) bytes[index] = (uint8_t)(value >> (index * 8));`
write_le_loop : ℕ → ℕ → Bytes → ℕ → ℕ → Bytes
write_le_loop zero index bytes p value = bytes
write_le_loop (suc left) index bytes p value =
    write_le_loop left (index + 1) (set bytes (p + index) (value / 2 ^ (index * 8) % 256)) p value

unfoldable pub write_le32 : Bytes → ℕ → ℕ → Bytes
unfolding write_le_loop
write_le32 = write_le_loop 4 0

unfoldable pub write_le64 : Bytes → ℕ → ℕ → Bytes
unfolding write_le_loop
write_le64 = write_le_loop 8 0

-- memcmp(a, b, size) == 0, on arrays of one size.
unfoldable pub bytes_equal : Bytes → Bytes → Bool
bytes_equal [] [] = true
bytes_equal (x ∷ xs) (y ∷ ys) = x == y && bytes_equal xs ys
bytes_equal _ _ = false

-- ===== src/Bytes/Fields.antt =====
-- What the field readers compute, and that reading back a written field gives the value.
use libromx.Prelude.{
  ℕ, zero, suc, ◌+◌, ◌*◌, ◌/◌, ◌%◌, ◌^◌, ◌<◌, bit_or, ◌≡◌, refl, ◌∙◌, arith, All, All-get_or,
}
use libromx.Prelude.Bits.{bit_or_fields}
use libromx.Bytes.{Bytes, IsByte, byte_at, read_le16, read_le32, read_le64}

pub read_le16_value :
    (bytes : Bytes) (p : ℕ)
    → All IsByte bytes
    → read_le16 bytes p ≡ byte_at bytes p + byte_at bytes (p + 1) * 2 ^ 8
unfolding read_le16
read_le16_value bytes p h =
    bit_or_fields 8 (byte_at bytes (p + 1)) (byte_at bytes p)
      (All-get_or IsByte bytes p 0 (omega arith) h)

pub read_le32_value :
    (bytes : Bytes) (p : ℕ)
    → All IsByte bytes
    → read_le32 bytes p
      ≡ byte_at bytes p
        + byte_at bytes (p + 1) * 2 ^ 8
        + byte_at bytes (p + 2) * 2 ^ 16
        + byte_at bytes (p + 3) * 2 ^ 24
unfolding read_le32
read_le32_value bytes p h =
    let b0 = All-get_or IsByte bytes p 0 (omega arith) h in
    let b1 = All-get_or IsByte bytes (p + 1) 0 (omega arith) h in
    let b2 = All-get_or IsByte bytes (p + 2) 0 (omega arith) h in
    rw
      (
        bit_or_fields 8 (byte_at bytes (p + 1)) (byte_at bytes p) b0,
        bit_or_fields 16 (byte_at bytes (p + 2)) (byte_at bytes p + byte_at bytes (p + 1) * 2 ^ 8)
            (omega arith),
        bit_or_fields 24 (byte_at bytes (p + 3))
            (byte_at bytes p + byte_at bytes (p + 1) * 2 ^ 8 + byte_at bytes (p + 2) * 2 ^ 16)
            (omega arith),
      )
      refl

join16 : (v : ℕ) → v < 2 ^ 16 → bit_or (v % 256) (v / 2 ^ 8 % 256 * 2 ^ 8) ≡ v
join16 v h = rw (bit_or_fields 8 (v / 2 ^ 8 % 256) (v % 256) (omega arith)) (omega arith)

join_24 : (v : ℕ) → bit_or (v % 2 ^ 16) (v / 2 ^ 16 % 256 * 2 ^ 16) ≡ v % 2 ^ 24
join_24 v = rw (bit_or_fields 16 (v / 2 ^ 16 % 256) (v % 2 ^ 16) (omega arith)) (omega arith)

join_32 : (v : ℕ) → bit_or (v % 2 ^ 24) (v / 2 ^ 24 % 256 * 2 ^ 24) ≡ v % 2 ^ 32
join_32 v = rw (bit_or_fields 24 (v / 2 ^ 24 % 256) (v % 2 ^ 24) (omega arith)) (omega arith)

join_16 : (v : ℕ) → bit_or (v % 256) (v / 2 ^ 8 % 256 * 2 ^ 8) ≡ v % 2 ^ 16
join_16 v = rw (bit_or_fields 8 (v / 2 ^ 8 % 256) (v % 256) (omega arith)) (omega arith)

join_40 : (v : ℕ) → bit_or (v % 2 ^ 32) (v / 2 ^ 32 % 256 * 2 ^ 32) ≡ v % 2 ^ 40
join_40 v = rw (bit_or_fields 32 (v / 2 ^ 32 % 256) (v % 2 ^ 32) (omega arith)) (omega arith)

join_48 : (v : ℕ) → bit_or (v % 2 ^ 40) (v / 2 ^ 40 % 256 * 2 ^ 40) ≡ v % 2 ^ 48
join_48 v = rw (bit_or_fields 40 (v / 2 ^ 40 % 256) (v % 2 ^ 40) (omega arith)) (omega arith)

join_56 : (v : ℕ) → bit_or (v % 2 ^ 48) (v / 2 ^ 48 % 256 * 2 ^ 48) ≡ v % 2 ^ 56
join_56 v = rw (bit_or_fields 48 (v / 2 ^ 48 % 256) (v % 2 ^ 48) (omega arith)) (omega arith)

join_64 : (v : ℕ) → bit_or (v % 2 ^ 56) (v / 2 ^ 56 % 256 * 2 ^ 56) ≡ v % 2 ^ 64
join_64 v = rw (bit_or_fields 56 (v / 2 ^ 56 % 256) (v % 2 ^ 56) (omega arith)) (omega arith)

-- The bytes at `p` are the low `n` bytes of `v`, lowest first.
abbrev pub Holds : ℕ → ℕ → Bytes → ℕ → ℕ → Type 0
Holds zero index bytes p v = Unit {0}
Holds (suc n) index bytes p v =
    (byte_at bytes (p + index) ≡ v / 2 ^ (index * 8) % 256) × Holds n (suc index) bytes p v

-- A field that holds the bytes of a number in range reads as that number.
pub read_le16-Holds :
    (bytes : Bytes) (p v : ℕ) → v < 2 ^ 16 → Holds 2 0 bytes p v → read_le16 bytes p ≡ v
unfolding read_le16
read_le16-Holds bytes p v h (e0, (e1, _)) =
    let z : p + 0 ≡ p = omega arith in
    let o : v / 2 ^ 0 % 256 ≡ v % 256 = omega arith in
    rw ((rw z at e0) ∙ o, e1, join_16 v) (omega arith)

pub read_le32-Holds :
    (bytes : Bytes) (p v : ℕ) → v < 2 ^ 32 → Holds 4 0 bytes p v → read_le32 bytes p ≡ v
unfolding read_le32
read_le32-Holds bytes p v h (e0, (e1, (e2, (e3, _)))) =
    let z : p + 0 ≡ p = omega arith in
    let o : v / 2 ^ 0 % 256 ≡ v % 256 = omega arith in
    rw ((rw z at e0) ∙ o, e1, e2, e3, join_16 v, join_24 v, join_32 v) (omega arith)

pub read_le64-Holds :
    (bytes : Bytes) (p v : ℕ) → v < 2 ^ 64 → Holds 8 0 bytes p v → read_le64 bytes p ≡ v
unfolding read_le64
read_le64-Holds bytes p v h (e0, (e1, (e2, (e3, (e4, (e5, (e6, (e7, _)))))))) =
    let o : bit_or 0 (v / 2 ^ 0 % 256 * 2 ^ 0) ≡ v % 256 =
      rw (bit_or_fields 0 (v / 2 ^ 0 % 256) 0 (omega arith)) (omega arith) in
    rw
      (
        e0,
        e1,
        e2,
        e3,
        e4,
        e5,
        e6,
        e7,
        o,
        join_16 v,
        join_24 v,
        join_32 v,
        join_40 v,
        join_48 v,
        join_56 v,
        join_64 v,
      )
      (omega arith)

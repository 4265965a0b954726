-- ===== src/Sha256.antt =====
-- src/sha256.c: the SHA-256 compression function and its streaming interface. A context holds the
-- eight words of the state, the 64-byte block buffer with the count of bytes that wait in it, and
-- the count of bytes fed.
pub mod Stream
mod Tests
use libromx.Prelude.{
  ℕ, zero, suc, ◌+◌, ◌-◌, ◌*◌, ◌/◌, ◌%◌, ◌^◌, bit_and, bit_or, bit_xor, List, [], ◌∷◌, ◌++◌, ◌==◌,
  ltb, if◌then◌else◌, length, get_or, set, take, drop, replicate, min,
}
use libromx.Bytes.{Bytes, byte_at, copy_at}

abbrev add32 : ℕ → ℕ → ℕ
add32 a b = (a + b) % 2 ^ 32

rotate_right : ℕ → ℕ → ℕ
rotate_right value count = bit_or (value / 2 ^ count) (value * 2 ^ (32 - count) % 2 ^ 32)

abbrev constants : List ℕ
constants =
    0x428a2f98 ∷ 0x71374491 ∷ 0xb5c0fbcf ∷ 0xe9b5dba5 ∷ 0x3956c25b ∷ 0x59f111f1 ∷ 0x923f82a4
    ∷ 0xab1c5ed5 ∷ 0xd807aa98 ∷ 0x12835b01 ∷ 0x243185be ∷ 0x550c7dc3 ∷ 0x72be5d74 ∷ 0x80deb1fe
    ∷ 0x9bdc06a7 ∷ 0xc19bf174 ∷ 0xe49b69c1 ∷ 0xefbe4786 ∷ 0x0fc19dc6 ∷ 0x240ca1cc ∷ 0x2de92c6f
    ∷ 0x4a7484aa ∷ 0x5cb0a9dc ∷ 0x76f988da ∷ 0x983e5152 ∷ 0xa831c66d ∷ 0xb00327c8 ∷ 0xbf597fc7
    ∷ 0xc6e00bf3 ∷ 0xd5a79147 ∷ 0x06ca6351 ∷ 0x14292967 ∷ 0x27b70a85 ∷ 0x2e1b2138 ∷ 0x4d2c6dfc
    ∷ 0x53380d13 ∷ 0x650a7354 ∷ 0x766a0abb ∷ 0x81c2c92e ∷ 0x92722c85 ∷ 0xa2bfe8a1 ∷ 0xa81a664b
    ∷ 0xc24b8b70 ∷ 0xc76c51a3 ∷ 0xd192e819 ∷ 0xd6990624 ∷ 0xf40e3585 ∷ 0x106aa070 ∷ 0x19a4c116
    ∷ 0x1e376c08 ∷ 0x2748774c ∷ 0x34b0bcb5 ∷ 0x391c0cb3 ∷ 0x4ed8aa4a ∷ 0x5b9cca4f ∷ 0x682e6ff3
    ∷ 0x748f82ee ∷ 0x78a5636f ∷ 0x84c87814 ∷ 0x8cc70208 ∷ 0x90befffa ∷ 0xa4506ceb ∷ 0xbef9a3f7
    ∷ 0xc67178f2 ∷ []

abbrev pub initial : List ℕ
initial =
    0x6a09e667 ∷ 0xbb67ae85 ∷ 0x3c6ef372 ∷ 0xa54ff53a ∷ 0x510e527f ∷ 0x9b05688c ∷ 0x1f83d9ab
    ∷ 0x5be0cd19 ∷ []

-- The first loop of the transform: sixteen big-endian words.
block_words : ℕ → ℕ → Bytes → List ℕ
block_words zero index block = []
block_words (suc left) index block =
    bit_or
      (bit_or (bit_or (byte_at block (index * 4) * 2 ^ 24) (byte_at block (index * 4 + 1) * 2 ^ 16))
        (byte_at block (index * 4 + 2) * 2 ^ 8))
      (byte_at block (index * 4 + 3))
    ∷ block_words left (index + 1) block

-- The second loop: the words are appended as the loop writes them.
schedule : ℕ → ℕ → List ℕ → List ℕ
schedule zero index words = words
schedule (suc left) index words =
    let w15 = get_or words (index - 15) 0 in
    let w2 = get_or words (index - 2) 0 in
    let s0 = bit_xor (bit_xor (rotate_right w15 7) (rotate_right w15 18)) (w15 / 2 ^ 3) in
    let s1 = bit_xor (bit_xor (rotate_right w2 17) (rotate_right w2 19)) (w2 / 2 ^ 10) in
    let word =
      add32 (add32 (add32 (get_or words (index - 16) 0) s0) (get_or words (index - 7) 0)) s1 in
    schedule left (index + 1) (words ++ (word ∷ []))

-- The local variables a to h of the transform.
record Working : Type 0 where
  a : ℕ
  b : ℕ
  c : ℕ
  d : ℕ
  e : ℕ
  f : ℕ
  g : ℕ
  h : ℕ

-- One round of the third loop, at a constant and a word.
round : Working → ℕ → ℕ → Working
round w constant word =
    let s1 = bit_xor (bit_xor (rotate_right w.e 6) (rotate_right w.e 11)) (rotate_right w.e 25) in
    let choice = bit_xor (bit_and w.e w.f) (bit_and (2 ^ 32 - 1 - w.e) w.g) in
    let temp1 = add32 (add32 (add32 (add32 w.h s1) choice) constant) word in
    let s0 = bit_xor (bit_xor (rotate_right w.a 2) (rotate_right w.a 13)) (rotate_right w.a 22) in
    let majority = bit_xor (bit_xor (bit_and w.a w.b) (bit_and w.a w.c)) (bit_and w.b w.c) in
    let temp2 = add32 s0 majority in
    record {
      a = add32 temp1 temp2;
      b = w.a;
      c = w.b;
      d = w.c;
      e = add32 w.d temp1;
      f = w.e;
      g = w.f;
      h = w.g;
    }

rounds : List ℕ → List ℕ → Working → Working
rounds [] words w = w
rounds (k ∷ ks) [] w = w
rounds (k ∷ ks) (word ∷ words) w = rounds ks words (round w k word)

working : List ℕ → Working
working state = record {
  a = get_or state 0 0;
  b = get_or state 1 0;
  c = get_or state 2 0;
  d = get_or state 3 0;
  e = get_or state 4 0;
  f = get_or state 5 0;
  g = get_or state 6 0;
  h = get_or state 7 0;
}

add_back : List ℕ → Working → List ℕ
add_back state w =
    add32 (get_or state 0 0) w.a
    ∷ add32 (get_or state 1 0) w.b
    ∷ add32 (get_or state 2 0) w.c
    ∷ add32 (get_or state 3 0) w.d
    ∷ add32 (get_or state 4 0) w.e
    ∷ add32 (get_or state 5 0) w.f
    ∷ add32 (get_or state 6 0) w.g
    ∷ add32 (get_or state 7 0) w.h
    ∷ []

-- romx_sha256_transform, from the old state and a block to the new state.
unfoldable pub transform : List ℕ → Bytes → List ℕ
unfolding block_words schedule rotate_right rounds round working add_back
transform state block =
    add_back state (rounds constants (schedule 48 16 (block_words 16 0 block)) (working state))

pub record Context : Type 0 where
  pub state : List ℕ
  pub block : Bytes
  pub total_size : ℕ
  pub block_size : ℕ

unfoldable pub sha256_init : Context
sha256_init = record { state = initial; block = replicate 64 0; total_size = 0; block_size = 0 }

-- The end of a round of the loop: a full block is compressed.
pub flush_full : Context → Context
flush_full ctx =
    if ctx.block_size == 64
    then record ctx { state = transform ctx.state ctx.block; block_size = 0 }
    else ctx

-- `while (size != 0)`: each round takes a byte at least, so a round for each byte is enough.
pub update_loop : ℕ → Context → Bytes → Context
update_loop fuel ctx [] = ctx
update_loop zero ctx (b ∷ rest) = ctx
update_loop (suc fuel) ctx (b ∷ rest) =
    let bytes = b ∷ rest in
    let count = min (64 - ctx.block_size) (length bytes) in
    let filled = record ctx {
      block = copy_at ctx.block ctx.block_size (take count bytes);
      block_size = ctx.block_size + count;
    } in
    update_loop fuel (flush_full filled) (drop count bytes)

unfoldable pub sha256_update : Context → Bytes → Context
unfolding update_loop flush_full
sha256_update ctx bytes =
    update_loop (length bytes)
      (record ctx { total_size = (ctx.total_size + length bytes) % 2 ^ 64 }) bytes

-- The big-endian bytes of a word, as the last loop of `finish` stores them.
word_bytes : ℕ → Bytes
word_bytes w = w / 2 ^ 24 % 256 ∷ w / 2 ^ 16 % 256 ∷ w / 2 ^ 8 % 256 ∷ w % 256 ∷ []

unfoldable pub digest_bytes : List ℕ → Bytes
unfolding word_bytes
digest_bytes [] = []
digest_bytes (w ∷ words) = word_bytes w ++ digest_bytes words

-- `block[63 - index] = (uint8_t)(bit_size >> (index * 8))` for index 0 to 7: big-endian.
unfoldable pub length_bytes : ℕ → Bytes
length_bytes bit_size =
    bit_size / 2 ^ 56 % 256
    ∷ bit_size / 2 ^ 48 % 256
    ∷ bit_size / 2 ^ 40 % 256
    ∷ bit_size / 2 ^ 32 % 256
    ∷ bit_size / 2 ^ 24 % 256
    ∷ bit_size / 2 ^ 16 % 256
    ∷ bit_size / 2 ^ 8 % 256
    ∷ bit_size % 256
    ∷ []

-- `block[block_size++] = 0x80;` and, where the length does not fit, the extra block.
pub close_block : Context → Context
close_block ctx =
    let marked = record ctx {
      block = set ctx.block ctx.block_size 0x80;
      block_size = ctx.block_size + 1;
    } in
    if ltb 56 marked.block_size
    then record marked {
      state =
          transform marked.state
            (copy_at marked.block marked.block_size (replicate (64 - marked.block_size) 0));
      block = copy_at marked.block marked.block_size (replicate (64 - marked.block_size) 0);
      block_size = 0;
    }
    else marked

unfoldable pub sha256_finish : Context → Bytes
unfolding close_block
sha256_finish ctx =
    let bit_size = ctx.total_size * 8 % 2 ^ 64 in
    let closed = close_block ctx in
    let zeroed = copy_at closed.block closed.block_size (replicate (56 - closed.block_size) 0) in
    digest_bytes (transform closed.state (copy_at zeroed 56 (length_bytes bit_size)))

-- `init`, one `update` and `finish`.
unfoldable pub sha256 : Bytes → Bytes
sha256 bytes = sha256_finish (sha256_update sha256_init bytes)

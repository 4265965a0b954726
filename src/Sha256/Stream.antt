-- ===== src/Sha256/Stream.antt =====
-- The streaming interface against a byte-at-a-time description: the chunked copies of `update` do
-- what feeding each byte alone would do, so the way a message is cut does not matter.
use libromx.Prelude.{
  ℕ, zero, suc, ◌+◌, ◌-◌, ◌%◌, ◌^◌, ◌≤◌, ◌<◌, [], ◌∷◌, ◌++◌, length, set, take, drop, min, ◌≡◌,
  refl, sym, ap, ◌∙◌, arith, length-append, length-set, length-take, length-drop, take-append-drop,
  append_assoc,
}
use mathlib.Core.Path.{ap₂}
use libromx.Bytes.{Bytes, copy_at}
use libromx.Sha256.{Context, flush_full, update_loop, sha256_init, sha256_update}

-- One byte goes into the block buffer, which is compressed when it is full.
abbrev pub push : Context → ℕ → Context
push ctx b =
    flush_full
      (record ctx { block = set ctx.block ctx.block_size b; block_size = ctx.block_size + 1 })

pub push_all : Context → Bytes → Context
push_all ctx [] = ctx
push_all ctx (b ∷ bytes) = push_all (push ctx b) bytes

-- The buffer has 64 bytes, one of them at least is free, and the count of bytes is a uint64_t.
pub record IsOpen (ctx : Context) : Type 0 where
  pub buffer : length ctx.block ≡ 64
  pub room : ctx.block_size < 64
  pub count : ctx.total_size < 2 ^ 64

pub push-IsOpen : (ctx : Context) (b : ℕ) → IsOpen ctx → IsOpen (push ctx b)
unfolding flush_full
push-IsOpen ctx b h = ground (arith, length-set ctx.block ctx.block_size b)

pub push_all-IsOpen : (bytes : Bytes) (ctx : Context) → IsOpen ctx → IsOpen (push_all ctx bytes)
unfolding push_all
push_all-IsOpen [] ctx h = h
push_all-IsOpen (b ∷ bytes) ctx h = push_all-IsOpen bytes (push ctx b) (push-IsOpen ctx b h)

pub push_all-append :
    (xs ys : Bytes) (ctx : Context) → push_all ctx (xs ++ ys) ≡ push_all (push_all ctx xs) ys
unfolding push_all
push_all-append [] ys ctx = refl
push_all-append (x ∷ xs) ys ctx = push_all-append xs ys (push ctx x)

drop-set-suc :
    (block : Bytes) (i n x : ℕ) → drop (suc i + n) (set block i x) ≡ drop (suc i + n) block
drop-set-suc [] i n x = refl
drop-set-suc (c ∷ block) zero n x = let e : 1 + n ≡ suc n = omega arith in rw e refl
drop-set-suc (c ∷ block) (suc i) n x =
    let e : suc (suc i) + n ≡ suc (suc i + n) = omega arith in rw e (drop-set-suc block i n x)

take-set-suc :
    (block : Bytes) (i x : ℕ)
    → i < length block
    → take (suc i) (set block i x) ≡ take i block ++ (x ∷ [])
take-set-suc [] i x h = absurd (omega arith)
take-set-suc (c ∷ block) zero x h = refl
take-set-suc (c ∷ block) (suc i) x h = ap (◌∷◌ c) (take-set-suc block i x (omega arith))

-- Writing `x` and then copying `xs` behind it is copying `x ∷ xs`.
copy_at-set :
    (block : Bytes) (i x : ℕ) (xs : Bytes)
    → i < length block
    → copy_at (set block i x) (i + 1) xs ≡ copy_at block i (x ∷ xs)
copy_at-set block i x xs h =
    let e : i + 1 ≡ suc i = omega arith in
    let k : suc i + length xs ≡ i + suc (length xs) = omega arith in
    rw
      (
        e,
        take-set-suc block i x h,
        drop-set-suc block i (length xs) x,
        k,
        append_assoc (take i block) (x ∷ []) (xs ++ drop (i + suc (length xs)) block),
      )
      refl

copy_at-nil : (block : Bytes) (i : ℕ) → copy_at block i [] ≡ block
copy_at-nil block i = let e : i + 0 ≡ i = omega arith in rw (e, take-append-drop i block) refl

-- The context after a chunk that fits the buffer is copied in.
abbrev fill : Context → Bytes → Context
fill ctx xs = record ctx {
  block = copy_at ctx.block ctx.block_size xs;
  block_size = ctx.block_size + length xs;
}

-- A chunk of at most the free bytes, copied at once, is the chunk fed byte by byte.
push_all-chunk :
    (xs : Bytes) (ctx : Context)
    → IsOpen ctx
    → ctx.block_size + length xs ≤ 64
    → push_all ctx xs ≡ flush_full (fill ctx xs)
unfolding push_all
push_all-chunk [] ctx h fits =
    unfold flush_full in ground (arith, h.room, copy_at-nil ctx.block ctx.block_size)
push_all-chunk (x ∷ []) ctx h fits =
    ap (λ (b : Bytes). flush_full (record ctx { block = b; block_size = ctx.block_size + 1 }))
      (sym (copy_at-nil (set ctx.block ctx.block_size x) (ctx.block_size + 1))
        ∙ copy_at-set ctx.block ctx.block_size x [] (omega (arith, h.buffer, h.room)))
push_all-chunk (x ∷ y ∷ xs) ctx h fits =
    let ctx' = record ctx {
      block = set ctx.block ctx.block_size x;
      block_size = ctx.block_size + 1;
    } in
    let stays : push ctx x ≡ ctx' = unfold flush_full in ground arith in
    let still : IsOpen ctx' = record {
      buffer = length-set ctx.block ctx.block_size x ∙ h.buffer;
      room = omega arith;
      count = h.count;
    } in
    let same : fill ctx' (y ∷ xs) ≡ fill ctx (x ∷ y ∷ xs) =
      ap₂ (λ (b : Bytes) (n : ℕ). record ctx { block = b; block_size = n })
        (copy_at-set ctx.block ctx.block_size x (y ∷ xs) (omega (arith, h.buffer, h.room)))
        (omega arith) in
    rw stays (push_all-chunk (y ∷ xs) ctx' still (omega arith) ∙ ap flush_full same)

-- The loop of `update` with a round for each byte is feeding the bytes one by one.
update_loop-push_all :
    (fuel : ℕ) (bytes : Bytes) (ctx : Context)
    → IsOpen ctx
    → length bytes ≤ fuel
    → update_loop fuel ctx bytes ≡ push_all ctx bytes
unfolding update_loop
update_loop-push_all fuel [] ctx h enough = unfold push_all in refl
update_loop-push_all zero (b ∷ rest) ctx h enough = absurd (omega arith)
update_loop-push_all (suc fuel) (b ∷ rest) ctx h enough =
    let bytes : Bytes = b ∷ rest in
    let count = min (64 - ctx.block_size) (length bytes) in
    let taken : length (take count bytes) ≡ count = omega (arith, length-take count bytes) in
    let filled = push_all-chunk (take count bytes) ctx h (omega (arith, h.room)) in
    let grow = λ (n : ℕ). flush_full (record ctx {
      block = copy_at ctx.block ctx.block_size (take count bytes);
      block_size = ctx.block_size + n;
    }) in
    let filled' = filled ∙ ap grow taken in
    let opened = rw filled' at (push_all-IsOpen (take count bytes) ctx h) in
    update_loop-push_all fuel (drop count bytes) _ opened
      (omega (arith, length-drop count bytes, h.room))
    ∙ ap (λ (c : Context). push_all c (drop count bytes)) (sym filled')
    ∙ sym (push_all-append (take count bytes) (drop count bytes) ctx)
    ∙ ap (push_all ctx) (take-append-drop count bytes)

abbrev pub counted : Context → ℕ → Context
counted ctx n = record ctx { total_size = (ctx.total_size + n) % 2 ^ 64 }

-- On an open context `update` counts the bytes, and otherwise does what feeding them one by one does.
pub sha256_update-push_all :
    (ctx : Context) (bytes : Bytes)
    → IsOpen ctx
    → sha256_update ctx bytes ≡ push_all (counted ctx (length bytes)) bytes
unfolding sha256_update
sha256_update-push_all ctx bytes h =
    update_loop-push_all (length bytes) bytes (counted ctx (length bytes))
      (record { buffer = h.buffer; room = h.room; count = omega arith }) (omega arith)

push_all-counted :
    (bytes : Bytes) (ctx : Context) (n : ℕ)
    → push_all (counted ctx n) bytes ≡ counted (push_all ctx bytes) n
unfolding push_all
push_all-counted [] ctx n = refl
push_all-counted (b ∷ bytes) ctx n =
    ap (λ (c : Context). push_all c bytes) same ∙ push_all-counted bytes (push ctx b) n
  where
    same : push (counted ctx n) b ≡ counted (push ctx b) n
    same = unfold flush_full in ground arith

-- Feeding `xs` and then `ys` leaves the context that feeding both at once leaves.
pub sha256_update-append :
    (ctx : Context) (xs ys : Bytes)
    → IsOpen ctx
    → sha256_update (sha256_update ctx xs) ys ≡ sha256_update ctx (xs ++ ys)
sha256_update-append ctx xs ys h =
    let n = length xs in
    let m = length ys in
    let first = sha256_update-push_all ctx xs h in
    let opened : IsOpen (push_all (counted ctx n) xs) =
      push_all-IsOpen xs (counted ctx n)
        (record { buffer = h.buffer; room = h.room; count = omega arith }) in
    let total : ((ctx.total_size + n) % 2 ^ 64 + m) % 2 ^ 64
        ≡ (ctx.total_size + length (xs ++ ys)) % 2 ^ 64 =
      omega (arith, length-append xs ys) in
    ap (λ (c : Context). sha256_update c ys) first
    ∙ sha256_update-push_all (push_all (counted ctx n) xs) ys opened
    ∙ ap (λ (c : Context). push_all c ys) (sym (push_all-counted xs (counted ctx n) m))
    ∙ sym (push_all-append xs ys (counted (counted ctx n) m))
    ∙ ap (λ (t : ℕ). push_all (record ctx { total_size = t }) (xs ++ ys)) total
    ∙ sym (sha256_update-push_all ctx (xs ++ ys) h)

pub sha256_init-IsOpen : IsOpen sha256_init
unfolding sha256_init
sha256_init-IsOpen = record { buffer = refl; room = omega arith; count = omega arith }

pub sha256_update-IsOpen :
    (ctx : Context) (bytes : Bytes) → IsOpen ctx → IsOpen (sha256_update ctx bytes)
sha256_update-IsOpen ctx bytes h = rw (sha256_update-push_all ctx bytes h) (
    push_all-IsOpen bytes (counted ctx (length bytes))
      (record { buffer = h.buffer; room = h.room; count = omega arith }))

-- Feeding nothing changes nothing.
pub sha256_update-nil : (ctx : Context) → IsOpen ctx → sha256_update ctx [] ≡ ctx
unfolding sha256_update
sha256_update-nil ctx h =
    unfold update_loop in ap (λ (t : ℕ). record ctx { total_size = t }) (omega (arith, h.count))

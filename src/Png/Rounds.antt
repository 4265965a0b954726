-- ===== src/Png/Rounds.antt =====
-- What a round of the loop of validate_png in src/png.c keeps: the flags stand for chunks of the image.
use libromx.Prelude.{
  ℕ, ◌+◌, ◌≤◌, ◌≡◌, refl, ap, inl, inr, Bool, true, false, not, ◌&&◌, ◌||◌, arith, ◌==◌,
  if◌then◌else◌, Bool-cases,
}
use mathlib.Core.Path.{subst}
use libromx.Bytes.{Bytes}
use libromx.Outcome.{
  cover_png, ok, refuse_if, >>=-eq-ok, refuse_if-eq-ok, if-eq-ok, ok-injective, fail-≢-ok,
}
use libromx.Types.{Reader, add64}
use libromx.Region.{read_exact}
use libromx.Png.{
  read_be32, valid_ihdr, Walk, Chunk, is_type, parse_chunk, bad_chunk, move_on, accept_ihdr,
  bad_plte, bad_iend, accept_chunk, sound_chunk, check_chunk, ihdr, plte, idat, iend,
}
use libromx.Png.Image.{Reaches, Stands, HasChunk, Within, Starts, Whole}

pub flag_clear : {b : Bool} → b ≡ false → b ≡ true → ⊥
flag_clear clear set = cc

-- The flags of the walk stand for chunks of the image.
abbrev pub Seen : Reader → Walk → Type 0
Seen reader walk =
    ((walk.saw_idat ≡ true) → HasChunk reader idat)
    × ((walk.saw_plte ≡ true) → HasChunk reader plte)

-- The walk at the position `at`, behind the first chunk.
pub data Sized (reader : Reader) (at : ℕ) (walk : Walk) : Type 0 where
  sized :
      walk.first ≡ false
      → Starts reader walk.width walk.height walk.color_type
      → Seen reader walk
      → ((walk.saw_iend ≡ true) → Whole reader walk.color_type)
      → walk.position ≡ at
      → Sized reader at walk

-- Before the first chunk or behind it.
pub data IsWalk (reader : Reader) (at : ℕ) (walk : Walk) : Type 0 where
  fresh :
      walk.first ≡ true
      → walk.saw_iend ≡ false
      → walk.saw_idat ≡ false
      → walk.saw_plte ≡ false
      → walk.position ≡ at
      → at ≡ 8
      → IsWalk reader at walk
  begun : Sized reader at walk → IsWalk reader at walk

valid_ihdr-Within :
    (bytes : Bytes) (limit : ℕ)
    → valid_ihdr bytes limit ≡ true
    → Within limit (read_be32 bytes 0) × Within limit (read_be32 bytes 4)
unfolding valid_ihdr
valid_ihdr-Within bytes limit h = ((ground arith, ground arith), (ground arith, ground arith))

accept_ihdr-Sized :
    (reader : Reader) (chunk : Chunk) (walk : Walk) {next : Walk}
    → Stands reader chunk
    → chunk.at ≡ 8
    → is_type chunk ihdr ≡ true
    → chunk.length ≡ 13
    → walk.saw_iend ≡ false
    → walk.saw_idat ≡ false
    → walk.saw_plte ≡ false
    → walk.position ≡ chunk.at
    → accept_ihdr reader chunk walk ≡ ok next
    → Sized reader chunk.at next
unfolding accept_ihdr
accept_ihdr-Sized reader chunk walk {next} stands first named thirteen going no_idat no_plte here
      h =
    let (bytes, got, rest) =
      >>=-eq-ok (read_exact reader.io (add64 reader.info.cover.offset (chunk.at + 8)) 13) _ h in
    let (_, valid, last) =
      >>=-eq-ok
        (refuse_if (not (valid_ihdr bytes reader.max_cover_dimension)) cover_png
          (add64 reader.info.cover.offset (chunk.at + 8)))
        _ rest in
    let holds : valid_ihdr bytes reader.max_cover_dimension ≡ true =
      ground (arith, refuse_if-eq-ok _ cover_png _ valid) in
    let (wide, high) = valid_ihdr-Within bytes reader.max_cover_dimension holds in
    let sixteen : chunk.at + 8 ≡ 16 = omega (arith, first) in
    subst (Sized reader chunk.at) (ok-injective last) (
      sized refl
        (record {
          chunk = chunk;
          stands = stands;
          first = first;
          named = named;
          thirteen = thirteen;
          fields = bytes;
          fields_read =
              subst
                (λ (n : ℕ). read_exact reader.io (add64 reader.info.cover.offset n) 13 ≡ ok bytes)
                sixteen got;
          width_stored = refl;
          height_stored = refl;
          color_stored = refl;
          width_within = wide;
          height_within = high;
        })
        ((λ saw. absurd (flag_clear no_idat saw)), λ saw. absurd (flag_clear no_plte saw))
        (λ ended. absurd (flag_clear going ended)) here)

-- IEND is taken of a whole image only.
bad_iend-Whole :
    (reader : Reader) (chunk : Chunk) (walk : Walk)
    → Seen reader walk
    → HasChunk reader iend
    → bad_iend chunk walk ≡ false
    → Whole reader walk.color_type
unfolding bad_iend
bad_iend-Whole reader chunk walk (pixels, palette) end fine = (
  pixels (ground arith),
  end,
  elim (Bool-cases walk.saw_plte) [
    | inl saw ↦ inr (palette saw)
    | inr none_seen ↦ inl (λ indexed. absurd (ground (arith, fine, none_seen, indexed)))
  ],
)

-- A chunk behind the first one keeps the sizes.
accept_chunk-Sized :
    (reader : Reader) (chunk : Chunk) (walk : Walk) {next : Walk}
    → Stands reader chunk
    → walk.first ≡ false
    → walk.saw_iend ≡ false
    → Starts reader walk.width walk.height walk.color_type
    → Seen reader walk
    → walk.position ≡ chunk.at
    → accept_chunk reader.info.cover.offset chunk walk ≡ ok next
    → Sized reader chunk.at next
unfolding accept_chunk
accept_chunk-Sized reader chunk walk stands behind going starts seen on h =
    let here = add64 reader.info.cover.offset chunk.at in
    let open_end = λ (ended : walk.saw_iend ≡ true). absurd (flag_clear going ended) in
    elim (if-eq-ok (is_type chunk ihdr) _ _ h) [
      | inl (_, again) ↦ elim (fail-≢-ok again) [ ]
      | inr (_, a) ↦ elim (if-eq-ok (is_type chunk plte) _ _ a) [
        | inl (named, p) ↦
            let (_, fine, last) = >>=-eq-ok (refuse_if (bad_plte chunk walk) cover_png here) _ p in
            subst (Sized reader chunk.at) (ok-injective last)
              (sized behind starts (seen.0, λ _. (chunk, stands, named)) open_end on)
        | inr (_, b) ↦ elim (if-eq-ok (is_type chunk idat) _ _ b) [
          | inl (named, p) ↦
              let (_, fine, last) = >>=-eq-ok (refuse_if walk.ended_idat cover_png here) _ p in
              subst (Sized reader chunk.at) (ok-injective last)
                (sized behind starts ((λ _. (chunk, stands, named)), seen.1) open_end on)
          | inr (_, c) ↦ elim (if-eq-ok (is_type chunk iend) _ _ c) [
            | inl (named, p) ↦
                let (_, fine, last) =
                  >>=-eq-ok (refuse_if (bad_iend chunk walk) cover_png here) _ p in
                subst (Sized reader chunk.at) (ok-injective last) (
                  sized behind starts seen
                    (λ ended.
                      bad_iend-Whole reader chunk walk seen (chunk, stands, named)
                        (refuse_if-eq-ok _ _ _ fine))
                    on)
            | inr (_, last) ↦
                subst (Sized reader chunk.at) (ok-injective last)
                  (sized behind starts seen open_end on)
          ]
        ]
      ]
    ]

pub then_branch {ℓ} :
    {A : Type ℓ} (b : Bool) (x y : A) {z : A} → b ≡ true → (if b then x else y) ≡ z → x ≡ z
then_branch true x y e h = h
then_branch false x y e h = cc

pub else_branch {ℓ} :
    {A : Type ℓ} (b : Bool) (x y : A) {z : A} → b ≡ false → (if b then x else y) ≡ z → y ≡ z
else_branch true x y e h = cc
else_branch false x y e h = h

move_on-Sized :
    (reader : Reader) (chunk : Chunk) (walk : Walk)
    → Sized reader chunk.at walk
    → Sized reader (chunk.at + (12 + chunk.length)) (move_on chunk walk)
move_on-Sized reader chunk walk (sized behind starts seen whole on) =
    sized behind starts seen whole (ap (λ n. n + (12 + chunk.length)) on)

-- The first chunk is an IHDR of thirteen bytes.
leads-named :
    (first short other : Bool)
    → first ≡ true
    → (first && (not short || not other)) ≡ false
    → (short ≡ true) × (other ≡ true)
leads-named first short other e h = (ground arith, ground arith)

-- The branch on `first`.
accepted-Sized :
    (reader : Reader) (chunk : Chunk) (walk : Walk) {next : Walk}
    → IsWalk reader chunk.at walk
    → walk.saw_iend ≡ false
    → Stands reader chunk
    → (walk.first && (not (chunk.length == 13) || not (is_type chunk ihdr))) ≡ false
    → (if walk.first
        then accept_ihdr reader chunk walk
        else accept_chunk reader.info.cover.offset chunk walk)
      ≡ ok next
    → Sized reader chunk.at next
accepted-Sized reader chunk walk (fresh first _ no_idat no_plte on begins) going stands leads h =
    let (long, named) =
      leads-named walk.first (chunk.length == 13) (is_type chunk ihdr) first leads in
    accept_ihdr-Sized reader chunk walk stands begins named (ground (arith, long)) going no_idat
      no_plte on (then_branch walk.first _ _ first h)
accepted-Sized reader chunk walk (begun (sized behind starts seen _ on)) going stands leads h =
    accept_chunk-Sized reader chunk walk stands behind going starts seen on
      (else_branch walk.first _ _ behind h)

bad_chunk-le :
    (size : ℕ) (chunk : Chunk)
    → bad_chunk size chunk ≡ false
    → chunk.at + (12 + chunk.length) ≤ size
unfolding bad_chunk
bad_chunk-le size chunk fine = ground arith

sound_chunk-facts :
    (reader : Reader) (chunk : Chunk) (walk : Walk)
    → sound_chunk reader chunk walk ≡ ok tt
    → (chunk.at + (12 + chunk.length) ≤ reader.info.cover.size)
      × ((walk.first && (not (chunk.length == 13) || not (is_type chunk ihdr))) ≡ false)
unfolding sound_chunk
sound_chunk-facts reader chunk walk h =
    let here = add64 reader.info.cover.offset chunk.at in
    let (_, inside, a) =
      >>=-eq-ok (refuse_if (bad_chunk reader.info.cover.size chunk) cover_png here) _ h in
    let (_, leads, _) =
      >>=-eq-ok
        (refuse_if (walk.first && (not (chunk.length == 13) || not (is_type chunk ihdr))) cover_png
          here)
        _ a in
    (
      bad_chunk-le reader.info.cover.size chunk (refuse_if-eq-ok _ _ _ inside),
      refuse_if-eq-ok _ cover_png here leads,
    )

pub check_chunk-Sized :
    (reader : Reader) (at : ℕ) (header : Bytes) (walk : Walk) {next : Walk}
    → Reaches reader at
    → read_exact reader.io (add64 reader.info.cover.offset at) 8 ≡ ok header
    → IsWalk reader at walk
    → walk.saw_iend ≡ false
    → check_chunk reader (parse_chunk at header) walk ≡ ok next
    → Sized reader (at + (12 + read_be32 header 0)) next
unfolding check_chunk
check_chunk-Sized reader at header walk {next} reached got is_walk going h =
    let chunk = parse_chunk at header in
    let base = reader.info.cover.offset in
    let (_, sound, g) = >>=-eq-ok (sound_chunk reader chunk walk) _ h in
    let (accepted, taken, last) =
      >>=-eq-ok (if walk.first then accept_ihdr reader chunk walk else accept_chunk base chunk walk)
        _ g in
    let (inside, leads) = sound_chunk-facts reader chunk walk sound in
    let stands : Stands reader chunk = record {
      reached = reached;
      header = header;
      header_read = got;
      stored_length = refl;
      stored_type = refl;
      in_region = inside;
    } in
    subst (Sized reader (at + (12 + read_be32 header 0))) (ok-injective last) (
      move_on-Sized reader chunk accepted
        (accepted-Sized reader chunk walk is_walk going stands leads taken))

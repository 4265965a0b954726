-- ===== src/Png/Accepted.antt =====
-- What holds of a cover image that validate_png of src/png.c accepts.
use libromx.Prelude.{
  ℕ, zero, suc, ◌+◌, ◌≤◌, ◌≡◌, refl, ◌∙◌, sym, inl, inr, Bool, true, false, not, ◌||◌, arith, ltb,
  ◌==◌, Bool-cases,
}
use mathlib.Core.Path.{subst}
use libromx.Bytes.{Bytes, bytes_equal}
use libromx.Outcome.{
  cover_absent, cover_too_large, cover_png, ok, refuse_if, offset_unknown, >>=-eq-ok,
  refuse_if-eq-ok, if-eq-ok, ok-injective,
}
use libromx.Types.{Reader, add64}
use libromx.Region.{read_exact}
use libromx.Png.{
  read_be32, Walk, parse_chunk, check_chunk, png_round, png_loop, start, check_signature,
  validate_png, signature,
}
use libromx.Png.Image.{Reaches, first_chunk, next_chunk, IsImage}
use libromx.Png.Rounds.{
  Sized, sized, IsWalk, fresh, begun, flag_clear, then_branch, else_branch, check_chunk-Sized,
}

png_round-Sized :
    (reader : Reader) (at : ℕ) (walk : Walk) {next : Walk}
    → Reaches reader at
    → IsWalk reader at walk
    → walk.position ≡ at
    → walk.saw_iend ≡ false
    → png_round reader walk ≡ ok next
    → (later : ℕ) × Reaches reader later × Sized reader later next
unfolding png_round
png_round-Sized reader at walk {next} reached is_walk on going h =
    let (header, got, rest) =
      >>=-eq-ok (read_exact reader.io (add64 reader.info.cover.offset walk.position) 8) _ h in
    let got_at =
      subst (λ (n : ℕ). read_exact reader.io (add64 reader.info.cover.offset n) 8 ≡ ok header) on
        got in
    (
      at + (12 + read_be32 header 0),
      next_chunk reached got_at,
      check_chunk-Sized reader at header walk reached got_at is_walk going
          (subst (λ (n : ℕ). check_chunk reader (parse_chunk n header) walk ≡ ok next) on rest),
    )

IsWalk-position :
    (reader : Reader) (at : ℕ) (walk : Walk) → IsWalk reader at walk → walk.position ≡ at
IsWalk-position reader at walk (fresh _ _ _ _ on _) = on
IsWalk-position reader at walk (begun (sized _ _ _ _ on)) = on

png_loop-IsWalk :
    (fuel : ℕ) (reader : Reader) (at : ℕ) (walk : Walk) {end : Walk}
    → Reaches reader at
    → IsWalk reader at walk
    → walk.saw_iend ≡ false
    → png_loop fuel reader walk ≡ ok end
    → (last : ℕ) × Reaches reader last × IsWalk reader last end
unfolding png_loop
png_loop-IsWalk zero reader at walk reached is_walk going h =
    (at, reached, subst (IsWalk reader at) (ok-injective h) is_walk)
png_loop-IsWalk (suc fuel) reader at walk {end} reached is_walk going h =
    elim (if-eq-ok (ltb walk.position reader.info.cover.size) _ _ h) [
      | inr (_, last) ↦ (at, reached, subst (IsWalk reader at) (ok-injective last) is_walk)
      | inl (_, round) ↦
          let (next, passed, more) = >>=-eq-ok (png_round reader walk) _ round in
          let (later, reached', kept) =
            png_round-Sized reader at walk reached is_walk (IsWalk-position reader at walk is_walk)
              going passed in
          elim (Bool-cases next.saw_iend) [
            | inl ended ↦ (
              later,
              reached',
              subst (IsWalk reader later) (ok-injective (then_branch next.saw_iend _ _ ended more))
                  (begun kept),
            )
            | inr again ↦
                png_loop-IsWalk fuel reader later next reached' (begun kept) again
                  (else_branch next.saw_iend _ _ again more)
          ]
    ]

ended-at :
    (saw : Bool) (position size : ℕ)
    → (not saw || not (position == size)) ≡ false
    → (saw ≡ true) × (position ≡ size)
ended-at saw position size h = (ground arith, ground arith)

-- The walk behind IEND at the end of the region.
IsWalk-IsImage :
    (reader : Reader) (at : ℕ) (walk : Walk) (header : Bytes)
    → Reaches reader at
    → IsWalk reader at walk
    → read_exact reader.io reader.info.cover.offset 8 ≡ ok header
    → bytes_equal header signature ≡ true
    → (not walk.saw_iend || not (walk.position == reader.info.cover.size)) ≡ false
    → reader.info.cover.size ≤ reader.max_cover_size
    → IsImage reader walk
IsWalk-IsImage reader at walk header reached (fresh first going _ _ _ _) got same ended fits =
    absurd (flag_clear going (ended-at walk.saw_iend walk.position reader.info.cover.size ended).0)
IsWalk-IsImage reader at walk header reached (begun (sized behind starts seen whole on)) got same
      ended fits =
    let (saw, at_end) = ended-at walk.saw_iend walk.position reader.info.cover.size ended in
    record {
      begins_signed = (header, got, same);
      starts = starts;
      whole = whole saw;
      chunks_fill = subst (Reaches reader) (sym on ∙ at_end) reached;
      small = fits;
    }

check_signature-facts :
    (reader : Reader)
    → check_signature reader ≡ ok tt
    → (reader.info.cover.size ≤ reader.max_cover_size)
      × ((header : Bytes) × (read_exact reader.io reader.info.cover.offset 8 ≡ ok header)
          × (bytes_equal header signature ≡ true))
unfolding check_signature
check_signature-facts reader h =
    let cover = reader.info.cover in
    let (_, _, a) = >>=-eq-ok (refuse_if (cover.size == 0) cover_absent offset_unknown) _ h in
    let (_, fits, b) =
      >>=-eq-ok (refuse_if (ltb reader.max_cover_size cover.size) cover_too_large cover.offset) _
        a in
    let (_, _, c) = >>=-eq-ok (refuse_if (ltb cover.size 8) cover_png cover.offset) _ b in
    let (header, got, same) = >>=-eq-ok (read_exact reader.io cover.offset 8) _ c in
    let small = refuse_if-eq-ok _ cover_too_large cover.offset fits in
    let signed = refuse_if-eq-ok _ cover_png cover.offset same in
    (ground (arith, small), (header, got, ground (arith, signed)))

-- A cover region that validate_png accepts holds a PNG image whose chunks follow one another from the signature to the end of the region: first an IHDR, with the reported sizes, not zero and at most the greatest dimension; an IDAT and an IEND, and a PLTE where the colour type is 3. The region is not larger than the reader allows.
pub validate_png-IsImage :
    (reader : Reader) {walk : Walk} → validate_png reader ≡ ok walk → IsImage reader walk
unfolding validate_png
validate_png-IsImage reader {walk} h =
    let cover = reader.info.cover in
    let (_, signed, a) = >>=-eq-ok (check_signature reader) _ h in
    let (fits, (header, got, same)) = check_signature-facts reader signed in
    let (end, walked, b) = >>=-eq-ok (png_loop cover.size reader start) _ a in
    let (_, whole, last) =
      >>=-eq-ok
        (refuse_if (not end.saw_iend || not (end.position == cover.size)) cover_png
          (add64 cover.offset end.position))
        _ b in
    let (at, reached, is_walk) =
      png_loop-IsWalk cover.size reader 8 start first_chunk (fresh refl refl refl refl refl refl)
        refl walked in
    subst (IsImage reader) (ok-injective last) (
      IsWalk-IsImage reader at end header reached is_walk got same (refuse_if-eq-ok _ _ _ whole)
        fits)

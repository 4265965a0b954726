-- ===== src/MutableWrite/Frame.antt =====
-- Where the write and the delete of src/mutable_write.c touch the file, whatever the disk answers.
use libromx.Prelude.{
  ℕ, zero, suc, ◌+◌, ◌-◌, ◌^◌, ◌≤◌, ◌<◌, min, ◌≡◌, refl, sym, ap, ◌∙◌, ◌⊎◌, inl, inr, not, List, [],
  ◌∷◌, ◌++◌, append_assoc, append-nil, arith, ltb, ◌==◌, Bool-cases, length, replicate, All,
  All-append,
}
use mathlib.Core.Path.{subst}
use libromx.Bytes.{Bytes}
use libromx.Crc32.{crc32_begin, crc32_update, crc32_finish}
use libromx.Mutable.Slots.{entry_size, state_active, state_writing, state_deleting}
use libromx.MutableWrite.{slot_offset, put_entry, expect_written, commit_write, commit_delete}
use libromx.MutableWrite.Effects.{
  Effect, wrote, synced, Disk, Session, pure, go_on, andthen, disk_write, disk_sync, read_source,
  lift, source_write_loop, source_write,
}
use libromx.MutableWrite.Extent.{build_entry}
use libromx.MutableWrite.Extent.Record.{length-build_entry}
use libromx.Outcome.{
  truncated, mutable_data_crc, Outcome, ok, fail, error_set, refuse_if, refuse_if-eq-ok,
  ok-injective, >>=-eq-ok, offset_unknown,
}
use libromx.Types.{Io, Reader, MutableObject, add64}

-- The effects behind `trace` all have the property.
abbrev pub Adds : (Effect → Type 0) → List Effect → List Effect → Type 0
Adds P trace after = (effects : List Effect) × (after ≡ trace ++ effects) × All P effects

-- Every effect that the call adds has the property, for every answer of the disk.
abbrev Within : {A : Type 0} → (Effect → Type 0) → Session A → Type 0
Within P session = (trace : List Effect) → Adds P trace (session trace).0

module _ (P : Effect → Type 0) where
  Within-pure : {A : Type 0} (r : Outcome A) → Within P (lift r)
  Within-pure r trace = ([], sym (append-nil trace), tt)

  go_on-Within :
      {A B : Type 0} (trace : List Effect) (before : List Effect × Outcome A) (next : A → Session B)
      → ((effects : List Effect) × (before.0 ≡ trace ++ effects) × All P effects)
      → ((a : A) → before.1 ≡ ok a → Within P (next a))
      → (effects : List Effect) × ((go_on before next).0 ≡ trace ++ effects) × All P effects
  go_on-Within trace (t, fail e) next h k = h
  go_on-Within trace (t, ok a) next (es, at, good) k =
      let (fs, at', good') = k a refl t in
      (
        es ++ fs,
        at' ∙ ap (λ (x : List Effect). x ++ fs) at ∙ append_assoc trace es fs,
        All-append P es fs good good',
      )

  Within-andthen :
      {A B : Type 0} (first : Session A) (next : A → Session B)
      → Within P first
      → ((a : A) → Within P (next a))
      → Within P (andthen first next)
  Within-andthen first next h k trace = go_on-Within trace (first trace) next (h trace) (λ a e. k a)

  Within-disk_write :
      (disk : Disk) (offset : ℕ) (bytes : Bytes)
      → P (wrote offset bytes)
      → Within P (disk_write disk offset bytes)
  unfolding disk_write
  Within-disk_write disk offset bytes h trace = (wrote offset bytes ∷ [], refl, (h, tt))

  Within-disk_sync : (disk : Disk) → P synced → Within P (disk_sync disk)
  unfolding disk_sync
  Within-disk_sync disk h trace = (synced ∷ [], refl, (h, tt))

-- The effect is a sync, or a write to the slot's record, or one inside the object's data.
abbrev pub InPlace : ℕ → ℕ → ℕ → Effect → Type 0
InPlace slot_start data_start data_size synced = Unit
InPlace slot_start data_start data_size (wrote offset bytes) =
    ((offset ≡ slot_start) × (length bytes ≡ entry_size))
    ⊎ ((data_start ≤ offset) × (offset + length bytes ≤ data_start + data_size))

pub read_source-length :
    (source : Io) (position wanted : ℕ) {bytes : Bytes}
    → read_source source position wanted ≡ ok bytes
    → length bytes ≡ wanted
unfolding read_source
read_source-length source position wanted {bytes} h =
    let (got, _, h1) = >>=-eq-ok (source.read_at position wanted) _ h in
    let (_, counted, last) =
      >>=-eq-ok (refuse_if (not (length got == wanted)) truncated offset_unknown) _ h1 in
    let e = ok-injective last in
    subst (λ (b : Bytes). length b ≡ wanted) e
      (ground
        (arith, refuse_if-eq-ok (not (length got == wanted)) truncated offset_unknown counted))

module _ (disk : Disk) (slot_start target : ℕ) (source : Io) (size chunk : ℕ)
    (fits : target + size < 2 ^ 64) where
  source_write_loop-Within :
      (fuel position crc : ℕ)
      → position ≤ size
      → Within
          (InPlace slot_start target size)
          (source_write_loop fuel disk target source size chunk position crc)
  unfolding source_write_loop
  source_write_loop-Within zero position crc le trace =
      Within-pure (InPlace slot_start target size) (ok crc) trace
  source_write_loop-Within (suc fuel) position crc le trace =
      elim (Bool-cases (ltb position size)) [
        | inr done ↦ rw done (Within-pure (InPlace slot_start target size) (ok crc) trace)
        | inl more ↦
            let wanted = min (size - position) chunk in
            rw more (
              go_on-Within (InPlace slot_start target size) trace
                (trace, read_source source position wanted) _ ([], sym (append-nil trace), tt)
                (λ bytes got.
                  let n = read_source-length source position wanted got in
                  let e : add64 target position ≡ target + position = omega (arith, fits, le) in
                  Within-andthen (InPlace slot_start target size)
                    (disk_write disk (add64 target position) bytes) _
                    (Within-disk_write (InPlace slot_start target size) disk (add64 target position)
                      bytes (inr (omega (arith, e), omega (arith, e, n, le))))
                    (λ stored.
                      source_write_loop-Within fuel (position + wanted) (crc32_update crc bytes)
                        (omega arith))))
      ]

put_entry-Within :
    (disk : Disk) (reader : Reader) (slot_index state data_start data_size : ℕ)
    (object : MutableObject)
    → length object.key ≤ 448
    → Within
        (InPlace (slot_offset reader slot_index) data_start data_size)
        (put_entry disk reader slot_index state object)
put_entry-Within disk reader slot_index state data_start data_size object le =
    let P = InPlace (slot_offset reader slot_index) data_start data_size in
    Within-andthen P (disk_write disk (slot_offset reader slot_index) (build_entry state object)) _
      (Within-disk_write P disk (slot_offset reader slot_index) (build_entry state object)
        (inl (refl, length-build_entry state object le)))
      (λ done. Within-disk_sync P disk tt)

expect_written-Within :
    (P : Effect → Type 0) (expected written : ℕ) → Within P (expect_written expected written)
expect_written-Within P expected written = elim (Bool-cases (written == expected)) [
  | inl same ↦ rw same (Within-pure P (ok tt))
  | inr other ↦ rw other (Within-pure P {A = Unit {0}} (error_set mutable_data_crc offset_unknown))
]

commit_write-Within :
    (disk : Disk) (reader : Reader) (source : Io) (chunk_size slot_index : ℕ)
    (object : MutableObject)
    → length object.key ≤ 448
    → reader.info.mutable_region.offset + object.data_offset + object.data_size < 2 ^ 64
    → Within
        (InPlace
          (slot_offset reader slot_index)
          (reader.info.mutable_region.offset + object.data_offset)
          object.data_size)
        (commit_write disk reader source chunk_size slot_index object)
unfolding commit_write source_write
commit_write-Within disk reader source chunk_size slot_index object le fits =
    let start = reader.info.mutable_region.offset + object.data_offset in
    let size = object.data_size in
    let P = InPlace (slot_offset reader slot_index) start size in
    let e : add64 reader.info.mutable_region.offset object.data_offset ≡ start =
      omega (arith, fits) in
    rw e (
      Within-andthen P (put_entry disk reader slot_index state_writing object) _
        (put_entry-Within disk reader slot_index state_writing start size object le)
        (λ announced.
          Within-andthen P
            (andthen (source_write_loop size disk start source size chunk_size 0 crc32_begin)
              (λ crc. pure (crc32_finish crc)))
            _
            (Within-andthen P
              (source_write_loop size disk start source size chunk_size 0 crc32_begin) _
              (source_write_loop-Within disk (slot_offset reader slot_index) start source size
                chunk_size fits size 0 crc32_begin (omega arith))
              (λ crc. Within-pure P (ok (crc32_finish crc))))
            (λ written.
              Within-andthen P (expect_written object.data_crc32 written) _
                (expect_written-Within P object.data_crc32 written)
                (λ checked.
                  Within-andthen P (disk_sync disk) _ (Within-disk_sync P disk tt) (λ stored.
                    Within-andthen P (put_entry disk reader slot_index state_active object) _
                      (put_entry-Within disk reader slot_index state_active start size object le)
                      (λ active. Within-pure P (ok object)))))))

-- A write of an object, whether it succeeds or fails at any point, adds to the effects only syncs, writes
-- of the slot's record, and writes inside the extent of the object's data. The key has at most 448
-- bytes, and the extent ends below 2 ^ 64.
pub commit_write-InPlace :
    (disk : Disk) (reader : Reader) (source : Io) (chunk_size slot_index : ℕ)
    (object : MutableObject) (trace : List Effect)
    → length object.key ≤ 448
    → reader.info.mutable_region.offset + object.data_offset + object.data_size < 2 ^ 64
    → Adds
        (InPlace
          (slot_offset reader slot_index)
          (reader.info.mutable_region.offset + object.data_offset)
          object.data_size)
        trace
        (commit_write disk reader source chunk_size slot_index object trace).0
commit_write-InPlace disk reader source chunk_size slot_index object trace le fits =
    commit_write-Within disk reader source chunk_size slot_index object le fits trace

-- A delete adds only syncs and writes of the slot's record, whatever the disk answers. The key has at
-- most 448 bytes.
pub commit_delete-InPlace :
    (disk : Disk) (reader : Reader) (slot_index : ℕ) (object : MutableObject) (trace : List Effect)
    → length object.key ≤ 448
    → Adds
        (InPlace (slot_offset reader slot_index) 0 0)
        trace
        (commit_delete disk reader slot_index object trace).0
unfolding commit_delete
commit_delete-InPlace disk reader slot_index object trace le =
    let P = InPlace (slot_offset reader slot_index) 0 0 in
    Within-andthen P (put_entry disk reader slot_index state_deleting object) _
      (put_entry-Within disk reader slot_index state_deleting 0 0 object le)
      (λ announced.
        Within-andthen P (disk_write disk (slot_offset reader slot_index) (replicate 512 0)) _
          (Within-disk_write P disk (slot_offset reader slot_index) (replicate 512 0)
            (inl (refl, refl)))
          (λ cleared. Within-disk_sync P disk tt))
      trace

-- ===== src/MutableWrite/Commit.antt =====
-- The order in which a write of src/mutable_write.c that succeeds reaches the disk.
use libromx.Prelude.{
  ℕ, zero, suc, ◌+◌, ◌-◌, ◌≤◌, ◌<◌, min, ◌≡◌, refl, sym, ap, ◌∙◌, inl, inr, List, [], ◌∷◌, ◌++◌,
  append_assoc, append-nil, arith, ltb, ◌==◌, Bool-cases, length, length-append,
}
use libromx.Bytes.{Bytes}
use libromx.Crc32.{crc32, crc32_begin, crc32_update, crc32_finish}
use libromx.Crc32.Stream.{crc32_update-append}
use libromx.Mutable.Slots.{state_active, state_writing}
use libromx.MutableWrite.{slot_offset, put_entry, expect_written, commit_write}
use libromx.MutableWrite.Effects.{
  Effect, wrote, synced, Disk, Session, go_on, disk_write, disk_sync, read_source,
  source_write_loop, source_write,
}
use libromx.MutableWrite.Extent.{build_entry}
use libromx.MutableWrite.Frame.{read_source-length}
use libromx.Outcome.{Outcome, ok, fail, fail-≢-ok, ok-injective}
use libromx.Types.{Io, Reader, MutableObject, add64}

-- The effects of writing chunks one behind the other, from `target + position` on.
abbrev pub chunk_writes : ℕ → ℕ → List Bytes → List Effect
chunk_writes target position [] = []
chunk_writes target position (bytes ∷ chunks) =
    wrote (add64 target position) bytes ∷ chunk_writes target (position + length bytes) chunks

abbrev pub concat : List Bytes → Bytes
concat [] = []
concat (bytes ∷ chunks) = bytes ++ concat chunks

-- A session of two parts that succeeds: both have.
andthen-ok :
    {A B : Type 0} (before : List Effect × Outcome A) (next : A → Session B) {after : List Effect}
    {b : B}
    → go_on before next ≡ (after, ok b)
    → (a : A) × (before.1 ≡ ok a) × (next a before.0 ≡ (after, ok b))
andthen-ok (trace, ok a) next h = (a, refl, h)
andthen-ok (trace, fail e) next h =
    elim (fail-≢-ok (ap (λ (p : List Effect × Outcome _). p.1) h)) [ ]

-- What the loop over the source has written when it succeeds.
IsWritten : ℕ → ℕ → ℕ → ℕ → List Effect → List Effect → ℕ → Type 0
IsWritten target size position crc trace after final =
    (chunks : List Bytes) × (after ≡ trace ++ chunk_writes target position chunks)
    × (position + length (concat chunks) ≡ size)
    × (final ≡ crc32_update crc (concat chunks))

nothing-IsWritten :
    (target size position crc final : ℕ) (trace after : List Effect)
    → position ≡ size
    → ◌≡◌ {A = List Effect × Outcome ℕ} (trace, ok crc) (after, ok final)
    → IsWritten target size position crc trace after final
unfolding IsWritten crc32_update
nothing-IsWritten target size position crc final trace after at_end h =
    let sum : crc ≡ final = ok-injective (ap (λ (p : List Effect × Outcome ℕ). p.1) h) in
    let same : trace ≡ after = ap (λ (p : List Effect × Outcome ℕ). p.0) h in
    ([], sym same ∙ sym (append-nil trace), omega (arith, at_end), sym sum)

source_write_loop-IsWritten :
    (fuel : ℕ) (disk : Disk) (target : ℕ) (source : Io) (size chunk position crc : ℕ)
    (trace : List Effect) {after : List Effect} {final : ℕ}
    → 0 < chunk
    → position ≤ size
    → size ≤ position + fuel
    → source_write_loop fuel disk target source size chunk position crc trace ≡ (after, ok final)
    → IsWritten target size position crc trace after final
unfolding source_write_loop IsWritten disk_write
source_write_loop-IsWritten zero disk target source size chunk position crc trace {after} {final}
      pos le enough h =
    nothing-IsWritten target size position crc final trace after (omega (arith, le, enough)) h
source_write_loop-IsWritten (suc fuel) disk target source size chunk position crc trace {after}
      {final} pos le enough h =
    elim (Bool-cases (ltb position size)) [
      | inr done ↦
          nothing-IsWritten target size position crc final trace after (ground (arith, le, done))
            (rw done at h)
      | inl more ↦
          let wanted = min (size - position) chunk in
          let (bytes, got, h1) =
            andthen-ok (trace, read_source source position wanted) _ (rw more at h) in
          let (_, _, h2) = andthen-ok (disk_write disk (add64 target position) bytes trace) _ h1 in
          let n = read_source-length source position wanted got in
          let (chunks, at, total, sum) =
            source_write_loop-IsWritten fuel disk target source size chunk (position + wanted)
              (crc32_update crc bytes) _ pos (omega arith) (ground (arith, more, pos, enough)) h2 in
          (
            bytes ∷ chunks,
            at
                ∙ append_assoc trace (wrote (add64 target position) bytes ∷ []) _
                ∙ ap
                    (λ (k : ℕ).
                      trace
                      ++ (wrote (add64 target position) bytes
                          ∷ chunk_writes target (position + k) chunks))
                    (sym n),
            omega (arith, total, n, length-append bytes (concat chunks)),
            sum ∙ sym (crc32_update-append bytes (concat chunks) crc),
          )
    ]

-- The effects of a write that succeeds, in their order.
abbrev pub write_order : ℕ → ℕ → MutableObject → List Bytes → List Effect
write_order slot_start target object chunks =
    wrote slot_start (build_entry state_writing object)
    ∷ synced
    ∷ (chunk_writes target 0 chunks
        ++ (synced ∷ wrote slot_start (build_entry state_active object) ∷ synced ∷ []))

answered : {A : Type 0} (m : List Effect × Outcome A) {a : A} → m.1 ≡ ok a → m ≡ (m.0, ok a)
answered (trace, r) h = ap (λ (x : Outcome _). (trace, x)) h

put_entry-trace :
    (disk : Disk) (reader : Reader) (slot_index state : ℕ) (object : MutableObject)
    (trace : List Effect) {u : Unit {0}}
    → (put_entry disk reader slot_index state object trace).1 ≡ ok u
    → (put_entry disk reader slot_index state object trace).0
      ≡ trace ++ (wrote (slot_offset reader slot_index) (build_entry state object) ∷ synced ∷ [])
unfolding disk_write disk_sync
put_entry-trace disk reader slot_index state object trace h =
    let (_, _, h1) =
      andthen-ok (disk_write disk (slot_offset reader slot_index) (build_entry state object) trace)
        _ (answered (put_entry disk reader slot_index state object trace) h) in
    sym (ap (λ (p : List Effect × Outcome (Unit {0})). p.0) h1)
    ∙ append_assoc trace (wrote (slot_offset reader slot_index) (build_entry state object) ∷ [])
        (synced ∷ [])

expect_written-trace :
    (expected written_crc : ℕ) (trace : List Effect) {u : Unit {0}}
    → (expect_written expected written_crc trace).1 ≡ ok u
    → ((expect_written expected written_crc trace).0 ≡ trace) × (written_crc ≡ expected)
expect_written-trace expected written_crc trace h = elim (Bool-cases (written_crc == expected)) [
  | inl same ↦ rw same (refl, ground (arith, same))
  | inr other ↦ elim (fail-≢-ok (rw other at h)) [ ]
]

source_write-trace :
    (disk : Disk) (target : ℕ) (source : Io) (size chunk : ℕ) (trace : List Effect) {crc : ℕ}
    → 0 < chunk
    → (source_write disk target source size chunk trace).1 ≡ ok crc
    → (chunks : List Bytes) × ((source_write disk target source size chunk trace).0
        ≡ trace ++ chunk_writes target 0 chunks)
      × (length (concat chunks) ≡ size)
      × (crc32 (concat chunks) ≡ crc)
unfolding source_write crc32 IsWritten
source_write-trace disk target source size chunk trace {crc} pos h =
    let (final, ended, h1) =
      andthen-ok (source_write_loop size disk target source size chunk 0 crc32_begin trace) _
        (answered (source_write disk target source size chunk trace) h) in
    let (chunks, at, total, sum) =
      source_write_loop-IsWritten size disk target source size chunk 0 crc32_begin trace pos
        (omega arith) (omega arith)
        (answered (source_write_loop size disk target source size chunk 0 crc32_begin trace)
          ended) in
    (
      chunks,
      sym (ap (λ (p : List Effect × Outcome ℕ). p.0) h1) ∙ at,
      omega (arith, total),
      ap crc32_finish (sym sum) ∙ ok-injective (ap (λ (p : List Effect × Outcome ℕ). p.1) h1),
    )

in_order :
    (trace chunks : List Effect) (announce activate : Effect)
    → (((trace ++ (announce ∷ synced ∷ [])) ++ chunks) ++ (synced ∷ [])) ++ (activate ∷ synced ∷ [])
      ≡ trace ++ (announce ∷ synced ∷ (chunks ++ (synced ∷ activate ∷ synced ∷ [])))
in_order trace chunks announce activate =
    append_assoc ((trace ++ (announce ∷ synced ∷ [])) ++ chunks) (synced ∷ [])
      (activate ∷ synced ∷ [])
    ∙ append_assoc (trace ++ (announce ∷ synced ∷ [])) chunks (synced ∷ activate ∷ synced ∷ [])
    ∙ append_assoc trace (announce ∷ synced ∷ []) (chunks ++ (synced ∷ activate ∷ synced ∷ []))

-- A write that succeeds has asked the disk for the record in the state WRITING, a sync, the data in
-- consecutive chunks, a sync, the record in the state ACTIVE and a sync, in this order; the chunks join
-- to as many bytes as the object has, and their CRC-32 is the one in the record. The chunk size is
-- positive.
pub commit_write-write_order :
    (disk : Disk) (reader : Reader) (source : Io) (chunk_size slot_index : ℕ)
    (object : MutableObject) (trace : List Effect) {after : List Effect} {written : MutableObject}
    → 0 < chunk_size
    → commit_write disk reader source chunk_size slot_index object trace ≡ (after, ok written)
    → (chunks : List Bytes) × (after
        ≡ trace
          ++ write_order
              (slot_offset reader slot_index)
              (add64 reader.info.mutable_region.offset object.data_offset)
              object
              chunks)
      × (length (concat chunks) ≡ object.data_size)
      × (crc32 (concat chunks) ≡ object.data_crc32)
unfolding commit_write disk_sync
commit_write-write_order disk reader source chunk_size slot_index object trace {after} {written} pos
      h =
    let target = add64 reader.info.mutable_region.offset object.data_offset in
    let size = object.data_size in
    let slot_start = slot_offset reader slot_index in
    let (_, announced, h1) =
      andthen-ok (put_entry disk reader slot_index state_writing object trace) _ h in
    let t1 = (put_entry disk reader slot_index state_writing object trace).0 in
    let (written_crc, stored, h2) =
      andthen-ok (source_write disk target source size chunk_size t1) _ h1 in
    let t2 = (source_write disk target source size chunk_size t1).0 in
    let (_, checked, h3) = andthen-ok (expect_written object.data_crc32 written_crc t2) _ h2 in
    let t3 = (expect_written object.data_crc32 written_crc t2).0 in
    let (_, _, h4) = andthen-ok (disk_sync disk t3) _ h3 in
    let (_, active, h5) =
      andthen-ok (put_entry disk reader slot_index state_active object (t3 ++ (synced ∷ []))) _
        h4 in
    let e1 = put_entry-trace disk reader slot_index state_writing object trace announced in
    let (chunks, e2, total, sum) =
      source_write-trace disk target source size chunk_size t1 pos stored in
    let (e3, same) = expect_written-trace object.data_crc32 written_crc t2 checked in
    let e5 =
      put_entry-trace disk reader slot_index state_active object (t3 ++ (synced ∷ [])) active in
    let last = ap (λ (p : List Effect × Outcome MutableObject). p.0) h5 in
    (
      chunks,
      sym last
          ∙ e5
          ∙ ap
              (λ (t : List Effect).
                (t ++ (synced ∷ []))
                ++ (wrote slot_start (build_entry state_active object) ∷ synced ∷ []))
              (e3 ∙ e2 ∙ ap (λ (t : List Effect). t ++ chunk_writes target 0 chunks) e1)
          ∙ in_order trace (chunk_writes target 0 chunks)
              (wrote slot_start (build_entry state_writing object))
              (wrote slot_start (build_entry state_active object)),
      total,
      sum ∙ same,
    )

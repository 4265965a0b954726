-- ===== src/MutableWrite/Effects.antt =====
-- src/mutable_write.c: writes and syncs as effects, and the two passes over the source of the data.
use libromx.Prelude.{
  ℕ, zero, suc, ◌+◌, ◌-◌, min, not, List, [], ◌∷◌, ◌++◌, ltb, ◌==◌, if◌then◌else◌, length,
}
use libromx.Bytes.{Bytes}
use libromx.Crc32.{crc32_begin, crc32_update, crc32_finish}
use libromx.Outcome.{
  Code, truncated, Outcome, ok, fail, error_set, refuse_if, offset_unknown, ◌>>=◌, ◌>>◌,
}
use libromx.Types.{Io, add64}

-- What was asked of the disk. A write that fails may have stored a part of its bytes.
pub data Effect : Type 0 where
  wrote : ℕ → Bytes → Effect
  synced : Effect

-- What disk_write and disk_sync answer, given the effects before the call.
pub record Disk : Type 0 where
  pub write : List Effect → ℕ → Bytes → Outcome (Unit {0})
  pub sync : List Effect → Outcome (Unit {0})

-- A part of a call: it adds to the effects and answers.
abbrev pub Session : Type 0 → Type 0
Session A = List Effect → List Effect × Outcome A

abbrev pub pure : {A : Type 0} → A → Session A
pure a trace = (trace, ok a)

abbrev pub raise : {A : Type 0} → Code → Session A
raise code trace = (trace, error_set code offset_unknown)

abbrev pub go_on :
    {A B : Type 0} → List Effect × Outcome A → (A → Session B) → List Effect × Outcome B
go_on (trace, ok a) next = next a trace
go_on (trace, fail e) next = (trace, fail e)

abbrev pub andthen : {A B : Type 0} → Session A → (A → Session B) → Session B
andthen first next trace = go_on (first trace) next

unfoldable pub disk_write : Disk → ℕ → Bytes → Session (Unit {0})
disk_write disk offset bytes trace =
    (trace ++ (wrote offset bytes ∷ []), disk.write trace offset bytes)

unfoldable pub disk_sync : Disk → Session (Unit {0})
disk_sync disk trace = (trace ++ (synced ∷ []), disk.sync trace)

-- `source->read_at(…)`, and the code ROMX_E_TRUNCATED for a count other than the one wanted.
unfoldable pub read_source : Io → ℕ → ℕ → Outcome Bytes
read_source source position wanted = do
  bytes ← source.read_at position wanted
  refuse_if (not (length bytes == wanted)) truncated offset_unknown
  ok bytes

-- The loops have `size` rounds at most, since a chunk has a byte at least.
unfoldable pub source_crc_loop : ℕ → Io → ℕ → ℕ → ℕ → ℕ → Outcome ℕ
source_crc_loop zero source size chunk position crc = ok crc
source_crc_loop (suc fuel) source size chunk position crc =
    let wanted = min (size - position) chunk in
    let rest = read_source source position wanted >>= λ bytes.
    source_crc_loop fuel source size chunk (position + wanted) (crc32_update crc bytes) in
    if ltb position size then rest else ok crc

unfoldable pub source_crc : Io → ℕ → ℕ → Outcome ℕ
source_crc source size chunk =
    source_crc_loop size source size chunk 0 crc32_begin >>= λ crc. ok (crc32_finish crc)

abbrev pub lift : {A : Type 0} → Outcome A → Session A
lift r trace = (trace, r)

unfoldable pub source_write_loop : ℕ → Disk → ℕ → Io → ℕ → ℕ → ℕ → ℕ → Session ℕ
source_write_loop zero disk target source size chunk position crc = pure crc
source_write_loop (suc fuel) disk target source size chunk position crc =
    let wanted = min (size - position) chunk in
    let rest = andthen (lift (read_source source position wanted)) (λ bytes.
      andthen (disk_write disk (add64 target position) bytes) (λ stored.
        source_write_loop fuel disk target source size chunk (position + wanted)
          (crc32_update crc bytes))) in
    if ltb position size then rest else pure crc

unfoldable pub source_write : Disk → ℕ → Io → ℕ → ℕ → Session ℕ
source_write disk target source size chunk =
    andthen (source_write_loop size disk target source size chunk 0 crc32_begin)
      (λ crc. pure (crc32_finish crc))

-- ===== src/Validate/Checks.antt =====
-- What the checks of src/validate.c establish.
use libromx.Prelude.{
  ◌≤◌, ◌<◌, ◌≡◌, refl, inl, inr, false, not, arith, ◌==◌, Bool-cases, length, take,
}
use libromx.Bytes.{Bytes, bytes_equal}
use libromx.Outcome.{immutable_hash, Outcome, refuse_if}
use libromx.Region.Streaming.{Serves, hash_region-eq}
use libromx.Sha256.{sha256}
use libromx.Types.{Reader}
use libromx.Validate.{Report, validate_immutable, reader_validate, validate_required_integrity}

-- On a reader with a digest in its footer, whose input serves the file, the integrity check succeeds
-- exactly when the digest is the SHA-256 of the immutable part of the file, and fails with
-- immutable_hash otherwise. The immutable part lies in the file, and the chunk size is positive.
pub validate_required_integrity-sha256 :
    (check_metadata check_cover : Reader → Report → Outcome Report) (reader : Reader) (file : Bytes)
    → Serves reader.io file
    → 0 < reader.io_chunk_size
    → reader.info.immutable_size ≤ length file
    → 0 < reader.info.immutable_hash_algorithm
    → validate_required_integrity check_metadata check_cover reader
      ≡ refuse_if
          (not (
            bytes_equal
              (sha256 (take reader.info.immutable_size file))
              reader.info.immutable_sha256))
          immutable_hash
          0
unfolding validate_required_integrity reader_validate validate_immutable
validate_required_integrity-sha256 check_metadata check_cover reader file serves pos inside hashed =
    let whole =
      hash_region-eq reader (record { offset = 0; size = reader.info.immutable_size }) file serves
        pos (omega arith) in
    let stored : (reader.info.immutable_hash_algorithm == 0) ≡ false = ground (arith, hashed) in
    rw (stored, whole)
      (elim (Bool-cases (
        bytes_equal (sha256 (take reader.info.immutable_size file)) reader.info.immutable_sha256)) [
          | inl same ↦ rw same refl
          | inr other ↦ rw other refl
        ])

-- ===== src/PayloadView/Serving.antt =====
-- The view of src/payload_view.c is itself an input: the one that serves the entrypoint's data.
use libromx.Prelude.{
  ℕ, ◌+◌, ◌-◌, ◌≤◌, ◌<◌, min, ◌≡◌, refl, sym, ap, ◌∙◌, inl, inr, ◌||◌, arith, leb, ◌==◌, Bool-cases,
  length,
}
use libromx.Outcome.{ok}
use libromx.Bytes.{Bytes, slice}
use libromx.PayloadView.{entrypoint_region, payload_read_at, get_payload_io}
use libromx.Region.Reads.{read_window-Serves}
use libromx.Region.Streaming.{Serves, length-slice}
use libromx.Bytes.Slices.{slice-slice}
use libromx.Types.{Reader}

-- Where the reader's input serves the file and the entrypoint's part lies in it, a read of the view that starts inside stops at the end of the data, and one that starts at the end or behind it
-- succeeds with no bytes.
pub payload_read_at-Serves :
    (reader : Reader) (file : Bytes) (offset size : ℕ)
    → Serves reader.io file
    → (entrypoint_region reader).offset + (entrypoint_region reader).size ≤ length file
    → payload_read_at reader offset size
      ≡ ok (
          slice offset
            (min ((entrypoint_region reader).size - offset) size)
            (slice (entrypoint_region reader).offset (entrypoint_region reader).size file))
unfolding payload_read_at
payload_read_at-Serves reader file offset size serves inside =
    let region = entrypoint_region reader in
    let count = min (region.size - offset) size in
    elim (Bool-cases (size == 0 || leb region.size offset)) [
      | inl empty ↦
          let z : min (region.size - offset) size ≡ 0 = ground (arith, empty) in rw (empty, z) refl
      | inr some_left ↦
          let left : offset < region.size = ground (arith, some_left) in
          rw some_left (
            read_window-Serves {io = reader.io} {file = file} region.offset region.size offset size
              serves inside (omega (arith, left))
            ∙ ap ok (
                sym
                  (slice-slice offset count region.offset region.size file (omega (arith, left)))))
    ]

-- The view serves the entrypoint's part of the file: where the reader's input serves the file and the
-- part lies in it, a read of the view inside the part gives the part's bytes. What reads a file may thus read the view.
pub get_payload_io-Serves :
    (reader : Reader) (file : Bytes)
    → Serves reader.io file
    → (entrypoint_region reader).offset + (entrypoint_region reader).size ≤ length file
    → Serves
        (get_payload_io reader)
        (slice (entrypoint_region reader).offset (entrypoint_region reader).size file)
unfolding get_payload_io
get_payload_io-Serves reader file serves inside =
    let region = entrypoint_region reader in
    let n = length-slice region.offset region.size file inside in
    let bounded = serves.sized in
    record {
      sized = omega (arith, n, bounded);
      reads = λ offset size h.
          (let fits : min (region.size - offset) size ≡ size = omega (arith, n, h) in
            payload_read_at-Serves reader file offset size serves inside
            ∙ ap (λ (k : ℕ). ok (slice offset k (slice region.offset region.size file))) fits);
    }

-- ===== src/Open/Opened.antt =====
-- What is known of a reader that src/reader.c opens.
use libromx.Prelude.{
  ℕ, ◌+◌, ◌-◌, ◌^◌, ◌≤◌, ◌<◌, ◌≡◌, refl, sym, ap, ◌∙◌, inl, inr, List, arith, ltb, ◌==◌, Bool-cases,
}
use mathlib.Core.Path.{subst}
use libromx.Footer.{footer_size, parse_footer}
use libromx.Footer.Bounds.{FooterLayout, parse_footer-FooterLayout}
use libromx.Mutable.{with_directory, load_directory, parse_mutable}
use libromx.Mutable.Accepted.{IsParsed, parse_mutable-IsParsed}
use libromx.Mutable.Slots.{Directory, header_size}
use libromx.Open.{ReaderOptions, validate_options, chunk_size_of, new_reader, reader_create}
use libromx.Open.Layout.{parse_ridx-Filled, Filled-FooterLayout}
use libromx.Outcome.{truncated, Outcome, ok, fail, refuse_if, ok-injective, >>=-eq-ok, ◌>>=◌}
use libromx.Region.{read_exact}
use libromx.Ridx.{parse_ridx}
use libromx.Ridx.Entries.{load_entries}
use libromx.Ridx.Header.{read_index}
use libromx.Ridx.Ranges.{check_ranges}
use libromx.Ridx.Regions.{place_regions}
use libromx.Ridx.Sound.{IsReader, parse_ridx-IsReader}
use libromx.Types.{EntryInfo, Info, Io, Reader}

-- The parser of the mutable region leaves the rest of the reader alone.
abbrev Keeps : Reader → Reader → Type 0
Keeps reader next =
    (next.info ≡ reader.info)
    × (next.entries ≡ reader.entries)
    × (next.io ≡ reader.io)
    × (next.io_chunk_size ≡ reader.io_chunk_size)

with_directory-Keeps :
    (reader : Reader) (r : Outcome Directory) → Keeps reader (with_directory reader r)
with_directory-Keeps reader (fail e) = (refl, refl, refl, refl)
with_directory-Keeps reader (ok directory) = (refl, refl, refl, refl)

parse_mutable-Keeps : (reader : Reader) → Keeps reader (parse_mutable reader)
unfolding parse_mutable
parse_mutable-Keeps reader = elim (Bool-cases (reader.info.mutable_region.size == 0)) [
  | inl none_there ↦ rw none_there (refl, refl, refl, refl)
  | inr some_there ↦ rw some_there (
      with_directory-Keeps reader (
        read_exact reader.io reader.info.mutable_region.offset header_size >>= λ header.
        load_directory reader header))
]

-- What holds of an open reader on an input of `file_size` bytes: the footer's layout fits them, and the
-- index, whose end is where the regions behind it start, is sound.
pub record IsOpened (io : Io) (reader : Reader) : Type 0 where
  pub file_size : ℕ
  pub sized : io.get_size ≡ ok file_size
  pub layout : FooterLayout file_size reader.info
  pub sound :
      IsReader reader.info reader.entries
        (reader.info.payload_index.offset + reader.info.payload_index.size)
  pub parsed : IsParsed reader
  pub same_io : reader.io ≡ io
  pub chunk_bound : 1024 ≤ reader.io_chunk_size

chunk_size_of-bound :
    (options : ReaderOptions) → validate_options options ≡ ok tt → 1024 ≤ chunk_size_of options
unfolding validate_options
chunk_size_of-bound options h = ground arith

parse_ridx-io :
    (reader : Reader) {opened : Reader}
    → parse_ridx reader ≡ ok opened
    → (opened.io ≡ reader.io) × (opened.io_chunk_size ≡ reader.io_chunk_size)
unfolding parse_ridx
parse_ridx-io reader {opened} h =
    let (index, _, h1) = >>=-eq-ok (read_index reader) _ h in
    let (loaded, _, h2) = >>=-eq-ok (load_entries reader.info.payload.size index) _ h1 in
    let (_, _, h3) =
      >>=-eq-ok (check_ranges reader.io reader.info.payload.size loaded.ranges) _ h2 in
    let (info, _, last) = >>=-eq-ok (place_regions reader.io reader.info loaded) _ h3 in
    let e = ok-injective last in
    (sym (ap (λ (r : Reader). r.io) e), sym (ap (λ (r : Reader). r.io_chunk_size) e))

IsOpened-Keeps :
    (io : Io) (reader next : Reader) (file_size : ℕ)
    → Keeps reader next
    → IsParsed next
    → io.get_size ≡ ok file_size
    → FooterLayout file_size reader.info
    → IsReader reader.info reader.entries
        (reader.info.payload_index.offset + reader.info.payload_index.size)
    → reader.io ≡ io
    → 1024 ≤ reader.io_chunk_size
    → IsOpened io next
IsOpened-Keeps io reader next file_size (info, entries, same, chunk) parsed sized layout sound from
      bound =
    record {
      file_size = file_size;
      sized = sized;
      layout = subst (FooterLayout file_size) (sym info) layout;
      sound =
          subst
            (λ (i : Info). IsReader i next.entries (i.payload_index.offset + i.payload_index.size))
            (sym info)
            (subst
              (λ (es : List EntryInfo).
                IsReader reader.info es
                  (reader.info.payload_index.offset + reader.info.payload_index.size))
              (sym entries) sound);
      parsed = parsed;
      same_io = same ∙ from;
      chunk_bound = omega (arith, chunk, bound);
    }

-- When a container opens on an input that reports a uint64_t value as its size, the layout that its footer
-- gives fits that size, its payload index is sound, with the regions behind it from the end of the index
-- on, its mutable region is absent, marked invalid, or has a sound directory, it reads that same input, in
-- chunks of at least 1024 bytes.
pub reader_create-IsOpened :
    (io : Io) (options : ReaderOptions) {reader : Reader}
    → ((n : ℕ) → io.get_size ≡ ok n → n < 2 ^ 64)
    → reader_create io options ≡ ok reader
    → IsOpened io reader
unfolding reader_create
reader_create-IsOpened io options {reader} bounded h =
    let (_, valid_options, h1) = >>=-eq-ok (validate_options options) _ h in
    let (file_size, sized, h2) = >>=-eq-ok io.get_size _ h1 in
    let (_, _, h3) = >>=-eq-ok (refuse_if (ltb file_size footer_size) truncated file_size) _ h2 in
    let (footer, _, h4) = >>=-eq-ok (read_exact io (file_size - footer_size) footer_size) _ h3 in
    let (info, parsed, h5) = >>=-eq-ok (parse_footer footer file_size) _ h4 in
    let (indexed, ridx, last) = >>=-eq-ok (parse_ridx (new_reader io options info)) _ h5 in
    let l = parse_footer-FooterLayout footer file_size parsed in
    let small = bounded file_size sized in
    let ends = l.footer_ends_file in
    let fills = l.mutable_fills in
    let sound =
      parse_ridx-IsReader (new_reader io options info) (omega (arith, ends, fills, small))
        l.header_fits ridx in
    let (same, chunk) = parse_ridx-io (new_reader io options info) ridx in
    let (layout, kept) =
      Filled-FooterLayout file_size info indexed.info
        (parse_ridx-Filled (new_reader io options info) ridx) l in
    let starts : info.payload.size ≡ indexed.info.payload_index.offset =
      sym kept ∙ sym layout.index_follows in
    subst (IsOpened io) (ok-injective last) (
      IsOpened-Keeps io indexed (parse_mutable indexed) file_size (parse_mutable-Keeps indexed)
        (parse_mutable-IsParsed indexed) sized layout
        (subst
          (λ (n : ℕ). IsReader indexed.info indexed.entries (n + indexed.info.payload_index.size))
          starts sound)
        same (let bound = chunk_size_of-bound options valid_options in omega (arith, chunk, bound)))

-- ===== src/Lib.antt =====
-- libromx: the ROMX container library (src/*.c and include/romx/romx.h).
--
-- A container is a payload, its index (RIDX), optional metadata and cover, an optional mutable region,
-- and a footer of 128 bytes. Opening reads the footer, then the index, then the mutable region; all
-- later calls go through the reader that opening leaves. The files of this library and the code:
--   Outcome, Types, Bytes     result codes and records of include/romx/romx.h and
--                             src/romx_internal.h; the little-endian fields that several files read
--   Crc32, Sha256             src/crc32.c, src/sha256.c
--   Footer                    src/footer.c, and the footer that src/writer.c builds
--   Region                    src/region.c: bounded reads, copies to a sink, hashes
--   Json                      src/json.c: the parser (Tokens, Scan, Parser), strings and look-ups
--                             (Strings, Lookup); Bounds, Tree, Leaves, Containers, Sound, Copies and
--                             Numbers hold what is proved of them
--   Metadata, Png             src/metadata.c (Schema for the checks), src/png.c
--   MutableStats              src/mutable_stats.c (Parse, Serialize, Access)
--   Utf8, Path                romx_utf8_validate of src/json.c; path_is_valid, key_is_valid, key_valid
--                             and ascii_fold_equal of src/ridx.c, src/mutable.c, src/mutable_write.c
--   Ridx                      src/ridx.c: romx_parse_ridx (Header, Entries, Ranges, Regions) and the
--                             calls on entries (Lookup)
--   Cursor, VfsFile,          src/vfs_file.c, src/payload_file.c, src/payload_view.c
--   PayloadFile, PayloadView
--   Mutable, MutableFile      src/mutable.c: romx_parse_mutable (Slots, Clashes), the calls on objects
--                             (Objects), the cursor
--   MutableWrite              src/mutable_write.c: write and delete as effects on a disk
--   Open, Validate            src/reader.c, src/validate.c (Sections: the checks of metadata and cover)
--   Prelude                   lists, bits and tests that all files share
--   Tests                     runs on small inputs
-- A function keeps its name without the prefix romx_ (and reader_ for the calls on entries).
--
-- Numbers are natural numbers; the sums and differences of uint64_t that the source does not guard wrap
-- (add64, sub64). A byte array is a list, a call that changes a handle gives the handle after it, and a
-- call that can fail gives an Outcome with the code and the byte offset of the error record. The
-- caller's input is a record of two functions, a sink and a disk answer by what was asked of them
-- before; where a result needs an input that is a file, it says so (Serves). Loops over chunks run on
-- fuel, the size of the region, which is enough since a chunk has a byte at least.
--
-- The JSON parser's recursion costs a unit of fuel for each value and each element; it is given twice
-- the size of the text and one more, and its own result type says that it never runs out. `realloc` and
-- `malloc` are arguments there, which answer whether a block of a size was had.
--
-- Not modelled: null pointers, failed allocation elsewhere, struct_size, messages; files, locks and
-- mappings (src/io_file.c, src/extract.c, the system calls of src/mutable_write.c and src/writer.c), the
-- construction of containers but for the footer (src/writer.c), probing and bundles (src/probe.c,
-- src/mutable_bundle.c) and the tables of names (src/registry.c).
pub mod Prelude
pub mod Outcome
pub mod Bytes
pub mod Crc32
pub mod Sha256
pub mod Types
pub mod Json
pub mod Metadata
pub mod Png
pub mod MutableStats
pub mod Footer
pub mod Region
pub mod Utf8
pub mod Path
pub mod Ridx
pub mod Cursor
pub mod VfsFile
pub mod PayloadFile
pub mod PayloadView
pub mod Mutable
pub mod MutableFile
pub mod MutableWrite
pub mod Open
pub mod Validate
pub mod Tests

-- ===== src/Tests/Container.antt =====
-- A small container, an input that serves it, and the reader that opens on it: the data of the tests.
use libromx.Prelude.{◌^◌, ◌<◌, refl, [], ◌∷◌, ◌++◌, length, replicate}
use libromx.Bytes.{Bytes, slice}
use libromx.Outcome.{ok}
use libromx.Region.Streaming.{Serves}
use libromx.Types.{Io}

-- The payload "ROM!data".
abbrev pub payload_bytes : Bytes
payload_bytes = 0x52 ∷ 0x4f ∷ 0x4d ∷ 0x21 ∷ 0x64 ∷ 0x61 ∷ 0x74 ∷ 0x61 ∷ []

-- The path "game.rom".
abbrev pub rom_path : Bytes
rom_path = 0x67 ∷ 0x61 ∷ 0x6d ∷ 0x65 ∷ 0x2e ∷ 0x72 ∷ 0x6f ∷ 0x6d ∷ []

abbrev pub index_header : Bytes
index_header =
    (0x52 ∷ 0x49 ∷ 0x44 ∷ 0x58 ∷ 1 ∷ 0 ∷ 0x40 ∷ 0 ∷ 1 ∷ 0 ∷ 0 ∷ 0 ∷ 0 ∷ 2 ∷ 0 ∷ 0 ∷ 0 ∷ 0 ∷ 0 ∷ 0
      ∷ 0x4a ∷ 0xce ∷ 0x53 ∷ 0x35 ∷ [])
    ++ replicate 40 0

abbrev pub index_entry : Bytes
index_entry =
    (1 ∷ 0 ∷ 0 ∷ 0 ∷ 1 ∷ 0 ∷ 8 ∷ 0 ∷ 0 ∷ 0 ∷ 0 ∷ 0 ∷ 0 ∷ 0 ∷ 0 ∷ 0 ∷ 8 ∷ 0 ∷ 0 ∷ 0 ∷ 0 ∷ 0 ∷ 0 ∷ 0
      ∷ 0 ∷ 0 ∷ 0 ∷ 0 ∷ 0 ∷ 0 ∷ 0 ∷ 0 ∷ 0x67 ∷ 0x61 ∷ 0x6d ∷ 0x65 ∷ 0x2e ∷ 0x72 ∷ 0x6f ∷ 0x6d ∷ [])
    ++ replicate 472 0

abbrev pub footer_bytes : Bytes
footer_bytes =
    (0x52 ∷ 0x4f ∷ 0x4d ∷ 0x58 ∷ 2 ∷ 0 ∷ 0 ∷ 0 ∷ 8 ∷ 0 ∷ 0 ∷ 0 ∷ 0 ∷ 0 ∷ 0 ∷ 0 ∷ 0 ∷ 0 ∷ 0 ∷ 0 ∷ 0
      ∷ 0 ∷ 0 ∷ 0 ∷ 0 ∷ 0 ∷ 0 ∷ 0 ∷ 0 ∷ 0 ∷ 0 ∷ 0 ∷ 0 ∷ 0 ∷ 0 ∷ 0 ∷ 0 ∷ 0 ∷ 0 ∷ 0 ∷ 1 ∷ 0 ∷ 1 ∷ 0
      ∷ 0 ∷ 0 ∷ 0 ∷ 0 ∷ 0 ∷ 0 ∷ 0 ∷ 0 ∷ 0 ∷ 0 ∷ 0 ∷ 0 ∷ 0 ∷ 0 ∷ 0 ∷ 0 ∷ 0 ∷ 0 ∷ 0 ∷ 0 ∷ 0 ∷ 0 ∷ 0
      ∷ 0 ∷ 0 ∷ 0 ∷ 0 ∷ 0 ∷ 0 ∷ 0 ∷ 0 ∷ 0 ∷ 0 ∷ 0 ∷ 0 ∷ 0 ∷ 8 ∷ 4 ∷ 0x8e ∷ 0x2f ∷ [])
    ++ replicate 44 0

abbrev pub container : Bytes
container = payload_bytes ++ (index_header ++ (index_entry ++ footer_bytes))

-- An input that answers with what the bytes hold, and with fewer bytes at their end.
abbrev pub bytes_io : Bytes → Io
bytes_io file = record {
  get_size = ok (length file);
  read_at = λ offset size. ok (slice offset size file);
}

pub bytes_io-Serves : (file : Bytes) → length file < 2 ^ 64 → Serves (bytes_io file) file
bytes_io-Serves file h = record { sized = h; reads = λ offset size k. refl }

-- ===== src/Png/Image.antt =====
-- A PNG image in the cover region, described by its chunks alone: what the walk of src/png.c should find.
use libromx.Prelude.{ℕ, ◌+◌, ◌≤◌, ◌<◌, ◌≡◌, ◌≢◌, ◌⊎◌, true, take, drop}
use libromx.Bytes.{Bytes, byte_at, bytes_equal}
use libromx.Outcome.{ok}
use libromx.Types.{Reader, add64}
use libromx.Region.{read_exact}
use libromx.Png.{read_be32, Walk, Chunk, is_type, ihdr, plte, idat, iend, signature}

-- The positions of the chunks: the first is behind the signature, and each ends where the next starts.
pub data Reaches (reader : Reader) : ℕ → Type 0 where
  first_chunk : Reaches reader 8
  next_chunk :
      {position : ℕ} {header : Bytes}
      → Reaches reader position
      → read_exact reader.io (add64 reader.info.cover.offset position) 8 ≡ ok header
      → Reaches reader (position + (12 + read_be32 header 0))

-- The chunk stands in the image: its header is read at one of those positions, and it ends in the region.
pub record Stands (reader : Reader) (chunk : Chunk) : Type 0 where
  pub reached : Reaches reader chunk.at
  pub header : Bytes
  pub header_read : read_exact reader.io (add64 reader.info.cover.offset chunk.at) 8 ≡ ok header
  pub stored_length : read_be32 header 0 ≡ chunk.length
  pub stored_type : take 4 (drop 4 header) ≡ chunk.type
  pub in_region : chunk.at + (12 + chunk.length) ≤ reader.info.cover.size

abbrev pub HasChunk : Reader → Bytes → Type 0
HasChunk reader name = (chunk : Chunk) × Stands reader chunk × (is_type chunk name ≡ true)

abbrev pub Within : ℕ → ℕ → Type 0
Within limit n = (0 < n) × (n ≤ limit)

-- The image starts with an IHDR of thirteen bytes, which gives the sizes and the colour type.
pub record Starts (reader : Reader) (width height color_type : ℕ) : Type 0 where
  pub chunk : Chunk
  pub stands : Stands reader chunk
  pub first : chunk.at ≡ 8
  pub named : is_type chunk ihdr ≡ true
  pub thirteen : chunk.length ≡ 13
  pub fields : Bytes
  pub fields_read : read_exact reader.io (add64 reader.info.cover.offset 16) 13 ≡ ok fields
  pub width_stored : read_be32 fields 0 ≡ width
  pub height_stored : read_be32 fields 4 ≡ height
  pub color_stored : byte_at fields 9 ≡ color_type
  pub width_within : Within reader.max_cover_dimension width
  pub height_within : Within reader.max_cover_dimension height

-- It has pixels and an end, and a palette where the colours are indices into one.
abbrev pub Whole : Reader → ℕ → Type 0
Whole reader color_type =
    HasChunk reader idat × HasChunk reader iend × ((color_type ≢ 3) ⊎ HasChunk reader plte)

pub record IsImage (reader : Reader) (walk : Walk) : Type 0 where
  pub begins_signed :
      (header : Bytes) × (read_exact reader.io reader.info.cover.offset 8 ≡ ok header)
      × (bytes_equal header signature ≡ true)
  pub starts : Starts reader walk.width walk.height walk.color_type
  pub whole : Whole reader walk.color_type
  pub chunks_fill : Reaches reader reader.info.cover.size
  pub small : reader.info.cover.size ≤ reader.max_cover_size

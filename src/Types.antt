-- ===== src/Types.antt =====
-- The structures of include/romx/romx.h and src/romx_internal.h that the modelled parts share:
-- romx_region_info_t, romx_info_t, romx_entry_info_t, romx_mutable_object_info_t,
-- struct romx_mutable_slot, romx_io_t and struct romx_reader. The struct_size fields are left out:
-- every structure here is complete. `path` and `key` hold the bytes before the terminating zero.
use libromx.Prelude.{ℕ, ◌+◌, ◌-◌, ◌%◌, ◌^◌, Bool, List}
use libromx.Bytes.{Bytes}
use libromx.Outcome.{Outcome}

-- uint64_t addition.
abbrev pub add64 : ℕ → ℕ → ℕ
add64 a b = (a + b) % 2 ^ 64

-- uint64_t subtraction.
abbrev pub sub64 : ℕ → ℕ → ℕ
sub64 a b = (a + 2 ^ 64 - b) % 2 ^ 64

pub record RegionInfo : Type 0 where
  pub offset : ℕ
  pub size : ℕ

abbrev pub no_region : RegionInfo
no_region = record { offset = 0; size = 0 }

pub record Info : Type 0 where
  pub version : ℕ
  pub file_size : ℕ
  pub payload : RegionInfo
  pub metadata : RegionInfo
  pub cover : RegionInfo
  pub payload_index : RegionInfo
  pub immutable_padding : RegionInfo
  pub mutable_region : RegionInfo
  pub footer : RegionInfo
  pub immutable_size : ℕ
  pub immutable_hash_algorithm : ℕ
  pub footer_crc32 : ℕ
  pub platform_id : ℕ
  pub launch_format_id : ℕ
  pub entry_count : ℕ
  pub entrypoint_index : ℕ
  pub immutable_sha256 : Bytes

pub record EntryInfo : Type 0 where
  pub index : ℕ
  pub flags : ℕ
  pub format_id : ℕ
  pub data_offset : ℕ
  pub data_size : ℕ
  pub crc32 : ℕ
  pub path : Bytes

pub record MutableObject : Type 0 where
  pub slot_index : ℕ
  pub object_namespace : ℕ
  pub data_offset : ℕ
  pub data_capacity : ℕ
  pub data_size : ℕ
  pub generation : ℕ
  pub modified_unix_seconds : ℕ
  pub data_crc32 : ℕ
  pub key : Bytes

-- `filled` is `object.struct_size != 0`: the stored entry was not all zeros.
pub record MutableSlot : Type 0 where
  pub filled : Bool
  pub object : MutableObject
  pub state : ℕ
  pub usable : Bool

pub data MutableStatus : Type 0 where
  absent valid degraded invalid : MutableStatus

-- The caller's input. `read_at offset size` gives the bytes that the callback stored, so their
-- number is `*bytes_read`; the callback may answer with fewer bytes than asked.
pub record Io : Type 0 where
  pub get_size : Outcome ℕ
  pub read_at : ℕ → ℕ → Outcome Bytes

pub record Reader : Type 0 where
  pub info : Info
  pub io : Io
  pub max_metadata_size : ℕ
  pub max_cover_size : ℕ
  pub max_cover_dimension : ℕ
  pub io_chunk_size : ℕ
  pub entries : List EntryInfo
  pub mutable_slots : List MutableSlot
  pub mutable_status : MutableStatus

-- ===== src/Cell.antt =====
-- src/node.h and src/node.cpp: the cells of a node, their headers, and how much of a payload stands in the node.
pub mod RoundTrip
pub mod Bounds
use cub_db.Common.{ℕ, ◌+◌, ◌-◌, ◌*◌, ◌/◌, ◌%◌, ◌^◌, bit_and, bit_or, ltb, leb, ◌==◌, if◌then◌else◌}
use cub_db.Common.{Bool, true, false, Option, none, some, ◌>>=◌}
use cub_db.Bytes.{Bytes, put_u32, fill}
use cub_db.Varint.{encode_varint, decode_varint}
use cub_db.Node.{sub32}

abbrev pub min_cell_header_size : ℕ
min_cell_header_size = 4

unfoldable pub compute_local_size : ℕ → ℕ → ℕ → ℕ → ℕ
compute_local_size key_size value_size min_local max_local =
    if leb (key_size + value_size) max_local
    then key_size + value_size
    else if ltb max_local key_size
    then max_local
    else if ltb min_local key_size
    then key_size
    else min_local

-- `PayloadDescriptor`.
pub record Payload : Type 0 where
  pub local_key_size : ℕ
  pub local_value_size : ℕ
  pub overflow_id_size : ℕ

unfoldable pub describe_branch_payload : ℕ → ℕ → ℕ → Payload
describe_branch_payload key_size min_local max_local =
    let local_size = compute_local_size key_size 0 min_local max_local in
    if ltb local_size key_size
    then record { local_key_size = local_size; local_value_size = 0; overflow_id_size = 4 }
    else record { local_key_size = key_size; local_value_size = 0; overflow_id_size = 0 }

unfoldable pub describe_leaf_payload : ℕ → ℕ → Bool → ℕ → ℕ → Payload
describe_leaf_payload key_size value_size is_bucket min_local max_local =
    let value = if is_bucket then 0 else value_size in
    let root_size = if is_bucket then 4 else 0 in
    let local_size =
      sub32 (compute_local_size ((root_size + key_size) % 2 ^ 32) value min_local max_local)
        root_size in
    if ltb local_size key_size
    then record { local_key_size = local_size; local_value_size = 0; overflow_id_size = 4 }
    else if ltb local_size ((key_size + value) % 2 ^ 32)
    then record {
      local_key_size = key_size;
      local_value_size = local_size - key_size;
      overflow_id_size = 4;
    }
    else record { local_key_size = key_size; local_value_size = value; overflow_id_size = 0 }

-- `SizeWithFlag` is a size and a flag.
unfoldable pub encode_size_with_flag : Bytes → ℕ → ℕ → Bool → Bytes × ℕ
encode_size_with_flag m output size flag =
    encode_varint m output (bit_or (size * 2 % 2 ^ 32) (if flag then 1 else 0))

unfoldable pub decode_size_with_flag : Bytes → ℕ → ℕ → Option (ℕ × Bool × ℕ)
decode_size_with_flag m input limit = do
  (value, ptr) ← decode_varint m input limit
  some (value / 2, (if bit_and value 1 == 0 then false else true), ptr)

pub record Cell : Type 0 where
  pub ptr : ℕ
  pub key : ℕ
  pub key_size : ℕ
  pub total_size : ℕ
  pub local_size : ℕ
  pub footprint : ℕ
  pub is_bucket : Bool

-- How far a header of this size is padded.
unfoldable pub pad_size : ℕ → ℕ
pad_size hdr_size = if ltb min_cell_header_size hdr_size then 0 else min_cell_header_size - hdr_size

-- The part of external_parse_cell behind the header, which ends at `ptr`.
unfoldable pub external_cell : ℕ → ℕ → ℕ → ℕ → Bool → ℕ → ℕ → ℕ → Option Cell
external_cell begin limit key_size value_size flag ptr min_local max_local =
    let hdr_size = ptr - begin in
    let payload = describe_leaf_payload key_size value_size flag min_local max_local in
    let local = payload.local_key_size + payload.local_value_size in
    let footprint = hdr_size + pad_size hdr_size + local + payload.overflow_id_size in
    if leb (begin + footprint) limit
    then some (record {
      ptr = begin;
      key = begin + hdr_size + pad_size hdr_size;
      key_size = key_size;
      total_size = (key_size + value_size) % 2 ^ 32;
      local_size = local % 2 ^ 32;
      footprint = footprint % 2 ^ 32;
      is_bucket = flag;
    })
    else none

-- The key size of a record cell follows its value size.
unfoldable pub external_record : Bytes → ℕ → ℕ → ℕ → ℕ → ℕ → ℕ → Option Cell
external_record m begin limit value_size ptr min_local max_local = do
  (key_size, ptr') ← decode_varint m ptr limit
  external_cell begin limit key_size value_size false ptr' min_local max_local

unfoldable pub external_parse_cell : Bytes → ℕ → ℕ → ℕ → ℕ → Option Cell
external_parse_cell m begin limit min_local max_local = do
  (size, flag, ptr) ← decode_size_with_flag m begin limit
  let bucket = external_cell begin limit size 0 flag (ptr + 4) min_local max_local in
      let recorded = external_record m begin limit size ptr min_local max_local in
      if flag then bucket else recorded

-- The part of internal_parse_cell behind the header, which ends at `ptr`.
unfoldable pub internal_cell : ℕ → ℕ → ℕ → ℕ → ℕ → ℕ → Option Cell
internal_cell begin limit key_size ptr min_local max_local =
    let hdr_size = ptr - begin in
    let payload = describe_branch_payload key_size min_local max_local in
    let footprint = hdr_size + payload.local_key_size + payload.overflow_id_size in
    if leb (begin + footprint) limit
    then some (record {
      ptr = begin;
      key = begin + hdr_size;
      key_size = key_size;
      total_size = key_size;
      local_size = payload.local_key_size;
      footprint = footprint % 2 ^ 32;
      is_bucket = false;
    })
    else none

unfoldable pub internal_parse_cell : Bytes → ℕ → ℕ → ℕ → ℕ → Option Cell
internal_parse_cell m begin limit min_local max_local = do
  (key_size, ptr) ← decode_varint m (begin + 4) limit
  internal_cell begin limit key_size ptr min_local max_local

unfoldable pub encode_branch_record_cell_hdr : Bytes → ℕ → ℕ → ℕ → Bytes × ℕ
encode_branch_record_cell_hdr m output key_size child_id =
    encode_varint (put_u32 m output child_id) (output + 4) key_size

unfoldable pub encode_leaf_record_cell_hdr : Bytes → ℕ → ℕ → ℕ → Bytes × ℕ
encode_leaf_record_cell_hdr m begin key_size value_size =
    let (m1, output) = encode_size_with_flag m begin value_size false in
    let (m2, output') = encode_varint m1 output key_size in
    let pad = pad_size (output' - begin) in (fill m2 output' 0 pad, output' + pad)

unfoldable pub prepare_bucket_cell_hdr : Bytes → ℕ → ℕ → Bytes × ℕ
prepare_bucket_cell_hdr m output key_size =
    let (m', output') = encode_size_with_flag m output key_size true in (m', output' + 4)

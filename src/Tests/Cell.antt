-- ===== src/Tests/Cell.antt =====
-- A cell with a key of three bytes and a value of five.
use cub_db.Common.{◌+◌, ◌-◌, ◌≡◌, refl, arith, false, some}
use cub_db.Bytes.{Bytes}
use cub_db.Varint.{encode_varint, varint_bytes, emit}
use cub_db.Cell.{
  describe_leaf_payload, compute_local_size, encode_leaf_record_cell_hdr, encode_size_with_flag,
}
use cub_db.Cell.{external_parse_cell, pad_size}
use cub_db.Cell.RoundTrip.{external_parse_cell-encode_leaf_record_cell_hdr}
use cub_db.Cell.Bounds.{Describes, describe_leaf_payload-Describes}

abbrev blank : Bytes
blank = λ i. 0

cell_end : (encode_leaf_record_cell_hdr blank 0 3 5).1 ≡ 4
unfolding encode_leaf_record_cell_hdr encode_size_with_flag encode_varint varint_bytes emit pad_size
cell_end = refl

small_payload :
    (describe_leaf_payload 3 5 false 10 50).local_key_size
      + (describe_leaf_payload 3 5 false 10 50).local_value_size
      + (describe_leaf_payload 3 5 false 10 50).overflow_id_size
    ≡ 8
unfolding describe_leaf_payload compute_local_size
small_payload = refl

external_parse_cell-encode_leaf_record_cell_hdr_example :
    external_parse_cell (encode_leaf_record_cell_hdr blank 0 3 5).0 0 100 10 50 ≡ (
      let payload = describe_leaf_payload 3 5 false 10 50 in
      some (record {
        ptr = 0;
        key = (encode_leaf_record_cell_hdr blank 0 3 5).1;
        key_size = 3;
        total_size = 8;
        local_size = payload.local_key_size + payload.local_value_size;
        footprint =
            (encode_leaf_record_cell_hdr blank 0 3 5).1
            - 0
            + payload.local_key_size
            + payload.local_value_size
            + payload.overflow_id_size;
        is_bucket = false;
      }))
external_parse_cell-encode_leaf_record_cell_hdr_example =
    external_parse_cell-encode_leaf_record_cell_hdr blank 0 3 5 100 10 50 (omega arith)
      (omega arith) (omega arith) (omega (arith, cell_end, small_payload))

describe_leaf_payload-Describes_example :
    Describes 30 500 0 10 50 (describe_leaf_payload 30 500 false 10 50)
describe_leaf_payload-Describes_example =
    describe_leaf_payload-Describes 30 500 10 50 false (omega arith) (omega arith) (omega arith)
      (omega arith) (omega arith)

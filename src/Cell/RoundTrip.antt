-- ===== src/Cell/RoundTrip.antt =====
-- A header of a record cell is parsed as it was encoded.
use cub_db.Common.{
  ℕ, zero, suc, ◌+◌, ◌-◌, ◌*◌, ◌/◌, ◌%◌, ◌^◌, ◌≤◌, ◌<◌, ◌≡◌, inl, inr, refl, ◌∙◌, arith, bit_and,
  bit_or,
}
use cub_db.Common.{ltb, leb, ◌==◌, ◌&&◌, false, Bool-cases, some, le→leb, eq→beq}
use cub_db.Common.Bits.{bit_or-zero, bit_and-one}
use cub_db.Bytes.{Bytes, fill}
use cub_db.Varint.{encode_varint, decode_varint, decode_loop}
use cub_db.Varint.RoundTrip.{
  decode_varint-encode_varint, decode_loop_within, encode_varint-Outside, encode_varint_end,
}
use cub_db.Cell.{
  Cell, describe_leaf_payload, encode_size_with_flag, decode_size_with_flag, pad_size,
}
use cub_db.Cell.{external_record, external_cell, external_parse_cell, encode_leaf_record_cell_hdr}

-- Decoding reads no byte outside the ones it takes.
decode_loop_congr :
    (rounds : ℕ) (m m' : Bytes) (p limit shift result value q : ℕ)
    → decode_loop rounds m p limit shift result ≡ some (value, q)
    → ((i : ℕ) → p ≤ i → i < q → m' i ≡ m i)
    → decode_loop rounds m' p limit shift result ≡ some (value, q)
unfolding decode_loop
decode_loop_congr zero m m' p limit shift result value q e same = absurd (cc e)
decode_loop_congr (suc rounds) m m' p limit shift result value q e same =
    let (past, within, few, bits) =
      decode_loop_within (suc rounds) m p limit shift result value q e in
    let byte : m' p ≡ m p = same p (omega arith) past in
    elim (Bool-cases (leb shift 28 && ltb p limit)) [
      | inr no_room ↦ absurd (cc (rw (no_room) at e))
      | inl room ↦ elim (Bool-cases (bit_and (m p) 128 == 0)) [
        | inl last ↦ rw (room, byte, last) (rw (room, last) at e)
        | inr more ↦
            let rest = rw (room, more) at e in
            rw (room, byte, more)
              (decode_loop_congr rounds m m' (p + 1) limit (shift + 7)
                (bit_or result (bit_and (m p) 127 * 2 ^ shift % 2 ^ 32)) value q rest
                (λ i low high. same i (omega arith) high))
      ]
    ]

decode_varint_congr :
    (m m' : Bytes) (p limit value q : ℕ)
    → decode_varint m p limit ≡ some (value, q)
    → ((i : ℕ) → p ≤ i → i < q → m' i ≡ m i)
    → decode_varint m' p limit ≡ some (value, q)
unfolding decode_varint
decode_varint_congr m m' p limit value q e same =
    decode_loop_congr 6 m m' p limit 0 0 value q e same

-- The value size as it is stored.
flagged : (size : ℕ) → size < 2 ^ 31 → bit_or (size * 2 % 2 ^ 32) 0 ≡ size * 2
flagged size h = bit_or-zero (size * 2 % 2 ^ 32) ∙ omega arith

fill_before : (d : Bytes) (to v n j : ℕ) → j < to → fill d to v n j ≡ d j
unfolding fill
fill_before d to v n j h = ground arith

record_cell : ℕ → ℕ → ℕ → ℕ → ℕ → ℕ → Cell
record_cell begin key key_size total local footprint = record {
  ptr = begin;
  key = key;
  key_size = key_size;
  total_size = total;
  local_size = local;
  footprint = footprint;
  is_bucket = false;
}

record_cell_same :
    (begin key_size k k' t t' l l' f f' : ℕ)
    → k ≡ k'
    → t ≡ t'
    → l ≡ l'
    → f ≡ f'
    → some (record_cell begin k key_size t l f) ≡ some (record_cell begin k' key_size t' l' f')
record_cell_same begin key_size k k' t t' l l' f f' a b c d = rw (a, b, c, d) refl

-- A record cell header that was written is parsed: the key starts behind the header, the sizes are the given ones, and the
-- local part and the footprint are as the payload is described, if the whole cell ends within the limit.
pub external_parse_cell-encode_leaf_record_cell_hdr :
    (m : Bytes) (begin key_size value_size limit min_local max_local : ℕ)
    → key_size < 2 ^ 31
    → value_size < 2 ^ 31
    → limit < 2 ^ 32
    → (let payload = describe_leaf_payload key_size value_size false min_local max_local in
        (encode_leaf_record_cell_hdr m begin key_size value_size).1
        + payload.local_key_size
        + payload.local_value_size
        + payload.overflow_id_size)
      ≤ limit
    → external_parse_cell
        (encode_leaf_record_cell_hdr m begin key_size value_size).0
        begin
        limit
        min_local
        max_local
      ≡ (let payload = describe_leaf_payload key_size value_size false min_local max_local in
          some (record {
            ptr = begin;
            key = (encode_leaf_record_cell_hdr m begin key_size value_size).1;
            key_size = key_size;
            total_size = key_size + value_size;
            local_size = payload.local_key_size + payload.local_value_size;
            footprint =
                (encode_leaf_record_cell_hdr m begin key_size value_size).1
                - begin
                + payload.local_key_size
                + payload.local_value_size
                + payload.overflow_id_size;
            is_bucket = false;
          }))
unfolding external_parse_cell external_record external_cell record_cell encode_leaf_record_cell_hdr
    decode_size_with_flag encode_size_with_flag
external_parse_cell-encode_leaf_record_cell_hdr m begin key_size value_size limit min_local
      max_local hk hv small room =
    let payload = describe_leaf_payload key_size value_size false min_local max_local in
    let stored = bit_or (value_size * 2 % 2 ^ 32) 0 in
    let stored_eq : stored ≡ value_size * 2 = flagged value_size hv in
    let r1 = encode_varint m begin stored in
    let r2 = encode_varint r1.0 r1.1 key_size in
    let pad = pad_size (r2.1 - begin) in
    let m3 = fill r2.0 r2.1 0 pad in
    let (end1, low1, high1) = encode_varint_end m begin stored (omega arith) in
    let (end2, low2, high2) = encode_varint_end r1.0 r1.1 key_size (omega arith) in
    let read1 : decode_varint m3 begin limit ≡ some (stored, r1.1) =
      decode_varint_congr r1.0 m3 begin limit stored r1.1
        (decode_varint-encode_varint m begin stored limit (omega arith) (omega arith))
        (λ i low high.
          fill_before r2.0 r2.1 0 pad i (omega arith)
          ∙ encode_varint-Outside r1.0 r1.1 key_size i (omega arith) (inl high)) in
    let read2 : decode_varint m3 r1.1 limit ≡ some (key_size, r2.1) =
      decode_varint_congr r2.0 m3 r1.1 limit key_size r2.1
        (decode_varint-encode_varint r1.0 r1.1 key_size limit (omega arith) (omega arith))
        (λ i low high. fill_before r2.0 r2.1 0 pad i high) in
    let half : stored / 2 ≡ value_size = omega arith in
    let flag : bit_and stored 1 ≡ 0 = bit_and-one stored ∙ omega arith in
    let key' : begin + (r2.1 - begin) + pad ≡ r2.1 + pad = omega arith in
    let footprint' : r2.1
          - begin
          + pad
          + (payload.local_key_size + payload.local_value_size)
          + payload.overflow_id_size
        ≡ r2.1 + pad - begin + payload.local_key_size + payload.local_value_size
          + payload.overflow_id_size =
      omega arith in
    let fits : begin
          + (r2.1
              - begin
              + pad
              + (payload.local_key_size + payload.local_value_size)
              + payload.overflow_id_size)
        ≤ limit =
      omega arith in
    rw (read1, eq→beq (bit_and stored 1) 0 flag, half, read2, le→leb _ limit fits)
      (record_cell_same begin key_size _ _ _ _ _ _ _ _ key' (omega arith) (omega arith)
        (omega arith))

-- ===== src/Tests/Encoding.antt =====
-- src/encoding.h at concrete inputs.
use cub_db.Common.{◌+◌, ◌-◌, ◌≤◌, ◌<◌, ◌≡◌, ◌^◌, refl, arith, inl, some}
use cub_db.Bytes.{Bytes, write, get_u16, get_u32, put_u16, put_u32}
use cub_db.Varint.{encode_varint, decode_varint, varint_length, emit, varint_bytes, decode_loop}
use cub_db.Varint.RoundTrip.{
  decode_varint-encode_varint, encode_varint_end, encode_varint-Outside, decode_varint_within,
}

abbrev zeros : Bytes
zeros i = 0

run : Unit {0}
unfolding get_u16 get_u32 put_u16 put_u32 write emit varint_bytes encode_varint decode_varint
    decode_loop
run = tt

little_endian : put_u16 zeros 0 0x1234 1 ≡ 0x12
unfolding run
little_endian = refl

encode_300 : (encode_varint zeros 0 300).0 0 ≡ 0xac
unfolding run
encode_300 = refl

encode_end : (encode_varint zeros 3 300).1 ≡ 5
unfolding run
encode_end = refl

-- A fifth byte whose bits do not fit a `uint32_t` is cut.
decode_cut : decode_varint (encode_varint zeros 0 (2 ^ 35 - 1)).0 0 5 ≡ some (2 ^ 32 - 1, 5)
unfolding run
decode_cut = refl

decode_varint-encode_varint_example :
    decode_varint (encode_varint zeros 3 300).0 3 8 ≡ some (300, (encode_varint zeros 3 300).1)
unfolding run
decode_varint-encode_varint_example =
    decode_varint-encode_varint zeros 3 300 8 (omega arith) (omega arith)

encode_varint_end_example :
    ((encode_varint zeros 3 300).1 ≡ 3 + varint_length 300)
    × (1 ≤ varint_length 300)
    × (varint_length 300 ≤ 5)
encode_varint_end_example = encode_varint_end zeros 3 300 (omega arith)

encode_varint-Outside_example : (encode_varint zeros 3 300).0 2 ≡ 0
encode_varint-Outside_example =
    encode_varint-Outside zeros 3 300 2 (omega arith) (inl (omega arith))

decode_varint_within_example : (3 < 5) × (5 ≤ 8) × (5 ≤ 3 + 5)
unfolding run
decode_varint_within_example = decode_varint_within (encode_varint zeros 3 300).0 3 8 300 5 refl

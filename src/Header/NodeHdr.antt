-- ===== src/Header/NodeHdr.antt =====
-- src/header.h: the fields of a node header that starts at offset `h` of its page.
use cub_db.Common.{ℕ, ◌+◌, ◌%◌, ◌^◌, Bool, true, false, ◌==◌, if◌then◌else◌}
use cub_db.Bytes.{Bytes, write, get_u16, get_u32, put_u16, put_u32}

pub data Kind : Type 0 where
  invalid internal external : Kind

abbrev pub cell_count_offset : ℕ
cell_count_offset = 1

abbrev pub cell_start_offset : ℕ
cell_start_offset = 3

abbrev pub free_start_offset : ℕ
free_start_offset = 5

abbrev pub frag_count_offset : ℕ
frag_count_offset = 7

abbrev pub next_id_offset : ℕ
next_id_offset = 8

abbrev pub size : Bool → ℕ
size true = next_id_offset
size false = next_id_offset + 4

unfoldable pub get_type : Bytes → ℕ → Kind
get_type m h = if m h == 1 then Kind.internal else if m h == 2 then Kind.external else Kind.invalid

unfoldable pub put_type : Bytes → ℕ → Bool → Bytes
put_type m h is_external = write m h (if is_external then 2 else 1)

abbrev pub get_cell_count : Bytes → ℕ → ℕ
get_cell_count m h = get_u16 m (h + cell_count_offset)

abbrev pub put_cell_count : Bytes → ℕ → ℕ → Bytes
put_cell_count m h value = put_u16 m (h + cell_count_offset) (value % 2 ^ 16)

abbrev pub get_cell_start : Bytes → ℕ → ℕ
get_cell_start m h = get_u16 m (h + cell_start_offset)

abbrev pub put_cell_start : Bytes → ℕ → ℕ → Bytes
put_cell_start m h value = put_u16 m (h + cell_start_offset) (value % 2 ^ 16)

abbrev pub get_free_start : Bytes → ℕ → ℕ
get_free_start m h = get_u16 m (h + free_start_offset)

abbrev pub put_free_start : Bytes → ℕ → ℕ → Bytes
put_free_start m h value = put_u16 m (h + free_start_offset) (value % 2 ^ 16)

abbrev pub get_frag_count : Bytes → ℕ → ℕ
get_frag_count m h = m (h + frag_count_offset)

abbrev pub put_frag_count : Bytes → ℕ → ℕ → Bytes
put_frag_count m h value = write m (h + frag_count_offset) (value % 256)

abbrev pub get_next_id : Bytes → ℕ → ℕ
get_next_id m h = get_u32 m (h + next_id_offset)

abbrev pub put_next_id : Bytes → ℕ → ℕ → Bytes
put_next_id m h value = put_u32 m (h + next_id_offset) value

-- ===== src/Header/FileHdr.antt =====
-- src/header.h: the fields of the file header, at the start of page 1.
use cub_db.Common.{ℕ, ◌+◌, ◌%◌, ◌^◌, List, [], ◌∷◌}
use cub_db.Bytes.{Bytes, get_u16, get_u32, put_u16, put_u32}

abbrev pub fmt_size : ℕ
fmt_size = 18

-- "CalicoDB format 1" with its null byte.
abbrev pub fmt_string : List ℕ
fmt_string =
    b'C' ∷ b'a' ∷ b'l' ∷ b'i' ∷ b'c' ∷ b'o' ∷ b'D' ∷ b'B' ∷ b' ' ∷ b'f' ∷ b'o' ∷ b'r' ∷ b'm' ∷ b'a'
    ∷ b't' ∷ b' ' ∷ b'1' ∷ 0 ∷ []

abbrev pub fmt_version : ℕ
fmt_version = 1

abbrev pub page_count_offset : ℕ
page_count_offset = fmt_size

abbrev pub freelist_head_offset : ℕ
freelist_head_offset = page_count_offset + 4

abbrev pub freelist_length_offset : ℕ
freelist_length_offset = freelist_head_offset + 4

abbrev pub largest_root_offset : ℕ
largest_root_offset = freelist_length_offset + 4

abbrev pub page_size_offset : ℕ
page_size_offset = largest_root_offset + 4

abbrev pub fmt_version_offset : ℕ
fmt_version_offset = page_size_offset + 2

abbrev pub size : ℕ
size = 64

abbrev pub get_page_count : Bytes → ℕ
get_page_count root = get_u32 root page_count_offset

abbrev pub put_page_count : Bytes → ℕ → Bytes
put_page_count root value = put_u32 root page_count_offset value

abbrev pub get_freelist_head : Bytes → ℕ
get_freelist_head root = get_u32 root freelist_head_offset

abbrev pub put_freelist_head : Bytes → ℕ → Bytes
put_freelist_head root value = put_u32 root freelist_head_offset value

abbrev pub get_freelist_length : Bytes → ℕ
get_freelist_length root = get_u32 root freelist_length_offset

abbrev pub put_freelist_length : Bytes → ℕ → Bytes
put_freelist_length root value = put_u32 root freelist_length_offset value

abbrev pub get_largest_root : Bytes → ℕ
get_largest_root root = get_u32 root largest_root_offset

abbrev pub put_largest_root : Bytes → ℕ → Bytes
put_largest_root root value = put_u32 root largest_root_offset value

abbrev pub get_page_size : Bytes → ℕ
get_page_size root = get_u16 root page_size_offset

abbrev pub put_page_size : Bytes → ℕ → Bytes
put_page_size root value = put_u16 root page_size_offset (value % 2 ^ 16)

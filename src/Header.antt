-- ===== src/Header.antt =====
-- src/header.h and src/header.cpp: the file header at the start of page 1, and the node header.
pub mod FileHdr
pub mod NodeHdr
pub mod Checks
use cub_db.Common.{ℕ, ◌+◌, ◌-◌, ◌%◌, ◌^◌, bit_and, Bool, true, false, List, [], ◌∷◌}
use cub_db.Common.{ltb, leb, ◌==◌, ◌&&◌, if◌then◌else◌}
use cub_db.Bytes.{Bytes, write}

-- What a check reports: the statuses of check_db_support and check_page_size that code can tell
-- apart by their class.
pub data Checked : Type 0 where
  ok invalid_argument : Checked
  too_small too_large not_power_of_two : Checked

-- Internal bounds of internal.h.
abbrev pub min_page_size : ℕ
min_page_size = 512

abbrev pub max_page_size : ℕ
max_page_size = 32768

-- `page_size & (page_size - 1)` is tested past the lower bound, so `page_size - 1` does not wrap.
unfoldable pub check_page_size : ℕ → Checked
check_page_size page_size =
    if ltb page_size min_page_size
    then too_small
    else if ltb max_page_size page_size
    then too_large
    else if bit_and page_size (page_size - 1) == 0
    then ok
    else not_power_of_two

-- `0 == memcmp(root + at, bytes, bytes.size())`
unfoldable pub bytes_equal : Bytes → ℕ → List ℕ → Bool
bytes_equal root at [] = true
bytes_equal root at (b ∷ bs) = (root at == b) && bytes_equal root (at + 1) bs

-- A `char` above 127 is negative, so it does not exceed the version.
unfoldable pub version_exceeds : ℕ → ℕ → Bool
version_exceeds byte version = ltb byte 128 && ltb version byte

unfoldable pub check_db_support : Bytes → Checked
check_db_support root =
    if bytes_equal root 0 FileHdr.fmt_string
    then if version_exceeds (root FileHdr.fmt_version_offset) FileHdr.fmt_version
      then invalid_argument
      else check_page_size (FileHdr.get_page_size root)
    else invalid_argument

-- `memcpy(m + at, bytes, bytes.size())`
unfoldable pub write_all : Bytes → ℕ → List ℕ → Bytes
write_all m at [] = m
write_all m at (b ∷ bs) = write_all (write m at b) (at + 1) bs

unfoldable pub make_supported_db : Bytes → ℕ → Bytes
unfolding write_all NodeHdr.put_type
make_supported_db root page_size =
    let named = write_all root 0 FileHdr.fmt_string in
    let versioned = write named FileHdr.fmt_version_offset FileHdr.fmt_version in
    let counted = FileHdr.put_page_count versioned 1 in
    let rooted = FileHdr.put_largest_root counted 1 in
    let sized = FileHdr.put_page_size rooted (page_size % 2 ^ 32) in
    let typed = NodeHdr.put_type sized FileHdr.size true in
    NodeHdr.put_cell_start typed FileHdr.size (page_size % 2 ^ 32)

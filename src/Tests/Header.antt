-- ===== src/Tests/Header.antt =====
-- src/header.cpp at concrete inputs.
use cub_db.Common.{ℕ, ◌^◌, ◌≤◌, ◌≡◌, ◌↔◌, refl}
use cub_db.Bytes.{Bytes}
use cub_db.Header.{
  ok, too_small, not_power_of_two, check_page_size, check_db_support, make_supported_db,
}
use cub_db.Header.FileHdr
use cub_db.Header.NodeHdr
use cub_db.Header.Checks.{check_page_size_iff, check_db_support-make_supported_db}

abbrev zeros : Bytes
zeros i = 0

check_sizes : (check_page_size 256 ≡ too_small) × (check_page_size 768 ≡ not_power_of_two)
unfolding check_page_size
check_sizes = (refl, refl)

check_page_size_iff_example :
    (check_page_size 4096 ≡ ok) ↔ ((512 ≤ 4096) × (4096 ≤ 32768) × ((k : ℕ) × (4096 ≡ 2 ^ k)))
check_page_size_iff_example = check_page_size_iff 4096

check_db_support-make_supported_db_example :
    (check_db_support (make_supported_db zeros 4096) ≡ ok)
    × (FileHdr.get_page_count (make_supported_db zeros 4096) ≡ 1)
    × (FileHdr.get_largest_root (make_supported_db zeros 4096) ≡ 1)
    × (FileHdr.get_page_size (make_supported_db zeros 4096) ≡ 4096)
    × (NodeHdr.get_type (make_supported_db zeros 4096) FileHdr.size ≡ NodeHdr.Kind.external)
    × (NodeHdr.get_cell_start (make_supported_db zeros 4096) FileHdr.size ≡ 4096)
unfolding check_page_size
check_db_support-make_supported_db_example = check_db_support-make_supported_db zeros 4096 refl

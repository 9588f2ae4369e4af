-- ===== src/Node.antt =====
-- src/node.cpp: a tree node as a slotted page. The indirection vector, and the
-- list of free blocks that is threaded through the cell content area. (src/node.h declares it.)
-- Offsets and lengths read from a page are below 2 ^ 16 and a page has at most 2 ^ 15 bytes, so that
-- sums of them do not wrap; where the source subtracts on `uint32_t`, `sub32` wraps as it does.
pub mod Slots
pub mod Chain
pub mod Sizes
pub mod Allocate
pub mod Release
use cub_db.Common.{ℕ, zero, suc, ◌+◌, ◌-◌, ◌*◌, ◌%◌, ◌^◌, bit_and, Bool, true, false}
use cub_db.Common.{Option, none, some, ltb, leb, ◌==◌, ◌||◌, if◌then◌else◌}
use cub_db.Bytes.{Bytes, write, copy, get_u16, put_u16}
use cub_db.Header.FileHdr
use cub_db.Header.NodeHdr

-- `uint32_t` subtraction.
abbrev pub sub32 : ℕ → ℕ → ℕ
sub32 a b = (a + 2 ^ 32 - b) % 2 ^ 32

abbrev pub slot_width : ℕ
slot_width = 2

abbrev pub min_block_size : ℕ
min_block_size = 2 * slot_width

abbrev pub max_frag_count : ℕ
max_frag_count = 128

-- `page` is the page buffer `ref->data`; the parser that a node holds goes by `external`.
pub record Node : Type 0 where
  pub page_id : ℕ
  pub page : Bytes
  pub scratch : Bytes
  pub external : Bool
  pub min_local : ℕ
  pub max_local : ℕ
  pub total_space : ℕ
  pub usable_space : ℕ
  pub gap_size : ℕ

-- `page_offset`: only page 1 has a file header.
abbrev pub page_offset : ℕ → ℕ
page_offset page_id = if page_id == 1 then FileHdr.size else 0

abbrev pub hdr : Node → ℕ
hdr n = page_offset n.page_id

abbrev pub is_leaf : Node → Bool
is_leaf n = n.page (hdr n) == 2

abbrev pub cell_count : Node → ℕ
cell_count n = NodeHdr.get_cell_count n.page (hdr n)

abbrev pub ivec_offset : Node → ℕ
ivec_offset n = hdr n + NodeHdr.size (is_leaf n)

abbrev pub gap_offset : Node → ℕ
gap_offset n = ivec_offset n + cell_count n * slot_width

unfoldable pub get_ivec_slot : Node → ℕ → ℕ
get_ivec_slot n index =
    bit_and (sub32 n.total_space 1 % 2 ^ 16) (get_u16 n.page (ivec_offset n + index * slot_width))

unfoldable pub put_ivec_slot : Node → ℕ → ℕ → Node
put_ivec_slot n index slot = record n {
  page = put_u16 n.page (ivec_offset n + index * slot_width) (slot % 2 ^ 16);
}

unfoldable pub insert_ivec_slot : Node → ℕ → ℕ → Node
insert_ivec_slot n index slot =
    let count = cell_count n in
    let offset = ivec_offset n + index * slot_width in
    let size = (count - index) * slot_width in
    let moved = copy n.page (offset + slot_width) n.page offset size in
    let filled = put_u16 moved offset (slot % 2 ^ 16) in
    record n {
      page = NodeHdr.put_cell_count filled (hdr n) (count + 1);
      gap_size = sub32 n.gap_size slot_width;
    }

unfoldable pub remove_ivec_slot : Node → ℕ → Node
remove_ivec_slot n index =
    let count = cell_count n in
    let offset = ivec_offset n + index * slot_width in
    let size = (count - index) * slot_width in
    let moved = copy n.page offset n.page (offset + slot_width) size in
    record n {
      page = NodeHdr.put_cell_count moved (hdr n) (sub32 count 1);
      gap_size = (n.gap_size + slot_width) % 2 ^ 32;
    }

abbrev pub get_next_pointer : Bytes → ℕ → ℕ
get_next_pointer m offset = get_u16 m offset

abbrev pub get_block_size : Bytes → ℕ → ℕ
get_block_size m offset = get_u16 m (offset + slot_width)

abbrev pub set_next_pointer : Bytes → ℕ → ℕ → Bytes
set_next_pointer m offset value = put_u16 m offset (value % 2 ^ 16)

abbrev pub set_block_size : Bytes → ℕ → ℕ → Bytes
set_block_size m offset value = put_u16 m (offset + slot_width) (value % 2 ^ 16)

-- Functions on the free blocks take the page's bytes and the offset `h` of the node header.
-- The offset of the region that is taken, and the page after it.
unfoldable pub take_free_space : Bytes → ℕ → ℕ → ℕ → ℕ → ℕ × Bytes
take_free_space m h ptr0 ptr1 needed_size =
    let ptr2 = get_next_pointer m ptr1 in
    let leftover_len = sub32 (get_block_size m ptr1) needed_size in
    let frag_count = NodeHdr.get_frag_count m h in
    let fragmented = NodeHdr.put_frag_count m h (frag_count + leftover_len) in
    let unlinked =
      if ptr0 == 0
      then NodeHdr.put_free_start fragmented h ptr2
      else set_next_pointer fragmented ptr0 ptr2 in
    let shrunk = set_block_size m ptr1 leftover_len in
    ((ptr1 + leftover_len) % 2 ^ 32, (if ltb leftover_len min_block_size then unlinked else shrunk))

-- `while (block_ofs) …`; `none` means that the fuel ran out.
unfoldable pub freelist_search : ℕ → Bytes → ℕ → ℕ → ℕ → ℕ → Option (ℕ × Bytes)
freelist_search zero m h prev_ofs block_ofs needed_size = none
freelist_search (suc fuel) m h prev_ofs block_ofs needed_size =
    let rest = freelist_search fuel m h block_ofs (get_next_pointer m block_ofs) needed_size in
    if block_ofs == 0
    then some (0, m)
    else if leb needed_size (get_block_size m block_ofs)
    then some (take_free_space m h prev_ofs block_ofs needed_size)
    else rest

unfoldable pub allocate_from_freelist : ℕ → Node → ℕ → Option (ℕ × Node)
allocate_from_freelist fuel n needed_size =
    elim (freelist_search fuel n.page (hdr n) 0 (NodeHdr.get_free_start n.page (hdr n))
      needed_size) [ none ↦ none | some (offset, m) ↦ some (offset, record n { page = m }) ]

unfoldable pub allocate_from_gap : Node → ℕ → ℕ × Node
allocate_from_gap n needed_size =
    let offset = sub32 (NodeHdr.get_cell_start n.page (hdr n)) needed_size in
    if leb needed_size n.gap_size
    then (
      offset,
      record n {
        page = NodeHdr.put_cell_start n.page (hdr n) offset;
        gap_size = n.gap_size - needed_size;
      },
    )
    else (0, n)

-- `BlockAllocator::allocate`.
unfoldable pub allocate : ℕ → Node → ℕ → Option (ℕ × Node)
allocate fuel n needed_size =
    let (offset, n') = allocate_from_gap n needed_size in
    if offset == 0 then allocate_from_freelist fuel n' needed_size else some (offset, n')

-- `BlockAllocator::freelist_size`, with `prev_end` and `total_len` carried along; `none` is -1.
unfoldable pub freelist_size_loop : ℕ → Bytes → ℕ → ℕ → ℕ → ℕ → Option ℕ
freelist_size_loop zero m total_space prev_end block_ofs total_len = none
freelist_size_loop (suc fuel) m total_space prev_end block_ofs total_len =
    let block_len = get_block_size m block_ofs in
    let rest =
      freelist_size_loop fuel m total_space (block_ofs + block_len) (get_next_pointer m block_ofs)
        (total_len + block_len) in
    if block_ofs == 0
    then some total_len
    else if ltb total_space (block_ofs + min_block_size)
        || ltb block_ofs ((prev_end + min_block_size) % 2 ^ 32)
    then none
    else if ltb total_space (block_ofs + block_len)
    then none
    else rest

-- Every round moves past four bytes of the page, so that many rounds are enough.
unfoldable pub freelist_size : Bytes → ℕ → ℕ → Option ℕ
freelist_size m h total_space =
    freelist_size_loop (total_space + 2) m total_space
      (sub32 (NodeHdr.get_cell_start m h) min_block_size) (NodeHdr.get_free_start m h) 0

-- The rest of `BlockAllocator::release`, past the branch for blocks that are too small. The walk gives
-- the blocks that the new one goes between, 0 for none; `none` means that the fuel ran out.
unfoldable pub release_search : ℕ → Bytes → ℕ → ℕ → ℕ → Option (ℕ × ℕ)
release_search zero m prev next block_ofs = none
release_search (suc fuel) m prev next block_ofs =
    let rest = release_search fuel m next (get_next_pointer m next) block_ofs in
    if next == 0 then some (prev, next) else if ltb next block_ofs then rest else some (prev, next)

abbrev pub fragment_cutoff : ℕ
fragment_cutoff = 3

-- Offset, length and fragment bytes of the block once the one before is merged in; `none` is the
-- return of -1 on an overlap.
unfoldable pub merge_before : Bytes → ℕ → ℕ → ℕ → Option (ℕ × ℕ × ℕ)
merge_before m prev block_ofs block_len =
    let before_end = prev + get_block_size m prev in
    let diff = block_ofs - before_end in
    if prev == 0
    then some (block_ofs, block_len, 0)
    else if ltb block_ofs before_end
    then none
    else if leb block_ofs (before_end + fragment_cutoff)
    then some (prev, block_len + (get_block_size m prev + diff), diff)
    else some (block_ofs, block_len, 0)

-- The next pointer, the length and the fragment bytes once the block behind is merged in.
unfoldable pub merge_after : Bytes → ℕ → ℕ → ℕ → Option (ℕ × ℕ × ℕ)
merge_after m next block_ofs block_len =
    let current_end = block_ofs + block_len in
    let diff = next - current_end in
    if next == 0
    then some (next, block_len, 0)
    else if ltb next current_end
    then none
    else if leb next (current_end + fragment_cutoff)
    then some (get_next_pointer m next, block_len + (get_block_size m next + diff), diff)
    else some (next, block_len, 0)

-- `false` is the return of -1, with the page as the call leaves it.
unfoldable pub release_between : Bytes → ℕ → ℕ → ℕ → ℕ → ℕ → Bool × Bytes
release_between m h prev next block_ofs block_len =
    let free_start = NodeHdr.get_free_start m h in
    let frag_count = NodeHdr.get_frag_count m h in
    elim (merge_before m prev block_ofs block_len) [
      | none ↦ (false, m)
      | some (ofs, len, before_diff) ↦
          let relink = if ofs == prev then false else if prev == 0 then false else true in
          let m1 = if relink then set_next_pointer m prev ofs else m in
          let start = if ofs == prev then free_start else if prev == 0 then ofs else free_start in
          elim (merge_after m1 next ofs len) [
            | none ↦ (false, m1)
            | some (next', len', after_diff) ↦
                let m2 = set_next_pointer m1 ofs next' in
                let m3 = set_block_size m2 ofs len' in
                let m4 =
                  NodeHdr.put_frag_count m3 h (sub32 frag_count (before_diff + after_diff)) in
                (true, NodeHdr.put_free_start m4 h start)
          ]
    ]

unfoldable pub release_block : ℕ → Bytes → ℕ → ℕ → ℕ → Option (Bool × Bytes)
release_block fuel m h block_ofs block_len =
    elim (release_search fuel m 0 (NodeHdr.get_free_start m h) block_ofs) [
      | none ↦ none
      | some (prev, next) ↦ some (release_between m h prev next block_ofs block_len)
    ]

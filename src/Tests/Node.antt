-- ===== src/Tests/Node.antt =====
-- src/node.cpp at concrete inputs: a page of 512 bytes with two free blocks.
use cub_db.Common.{ℕ, ◌+◌, ◌<◌, ◌≡◌, ◌↔◌, ◌⊎◌, true, arith, All, List, [], ◌∷◌, some}
use cub_db.Bytes.{Bytes, write, get_u16, put_u16}
use cub_db.Header.NodeHdr
use cub_db.Node.{Node, cell_count, insert_ivec_slot, remove_ivec_slot, freelist_size}
use cub_db.Node.{allocate_from_freelist, release_block}
use cub_db.Node.Slots.{raw_slot, insert_ivec_slot_lem, remove_ivec_slot_lem}
use cub_db.Node.Chain.{Block, Chain, free_bytes}
use cub_db.Node.Sizes.{freelist_size_iff}
use cub_db.Node.Release.{Released, release_block_lem}
use cub_db.Node.Allocate.{Taken, allocate_from_freelist_lem}

abbrev zeros : Bytes
zeros i = 0

-- An external node of page 3, with two cells, cell area at 400 and free blocks of 10 bytes at 420 and of 40 bytes at 450.
abbrev page : Bytes
page =
    put_u16
      (put_u16
        (put_u16 (put_u16 (put_u16 (put_u16 (put_u16 (write zeros 0 2) 1 2) 3 400) 5 420) 420 450)
          422 10)
        450 0)
      452 40

abbrev node : Node
node = record {
  page_id = 3;
  page = page;
  scratch = zeros;
  external = true;
  min_local = 0;
  max_local = 100;
  total_space = 512;
  usable_space = 500;
  gap_size = 388;
}

abbrev blocks : List Block
blocks = (420, 10) ∷ (450, 40) ∷ []

blocks-Chain : Chain page 512 400 420 blocks
unfolding get_u16 put_u16 write
blocks-Chain = omega arith

insert_ivec_slot_lem_example :
    (cell_count (insert_ivec_slot node 1 408) ≡ 3)
    × (raw_slot (insert_ivec_slot node 1 408) 2 ≡ raw_slot node 1)
unfolding get_u16 put_u16 write
insert_ivec_slot_lem_example =
    insert_ivec_slot_lem node 1 408 2 (omega arith) (omega arith) (omega arith)

remove_ivec_slot_lem_example :
    (cell_count (remove_ivec_slot node 0) + 1 ≡ 2)
    × (raw_slot (remove_ivec_slot node 0) 0 ≡ raw_slot node 1)
unfolding get_u16 put_u16 write
remove_ivec_slot_lem_example = remove_ivec_slot_lem node 0 0 (omega arith) (omega arith)

freelist_size_iff_example : (freelist_size page 0 512 ≡ some 50) ↔ (
    (bs : List Block) × Chain page 512
      (NodeHdr.get_cell_start page 0)
      (NodeHdr.get_free_start page 0)
      bs
    × (free_bytes bs ≡ 50))
freelist_size_iff_example = freelist_size_iff page 0 512 50 (omega arith)

allocate_from_freelist_lem_example :
    (allocate_from_freelist 5 node 30 ≡ some (0, node))
      × All (λ (block : Block). block.1 < 30) blocks
    ⊎ ((r : ℕ) × (m' : Bytes) × (allocate_from_freelist 5 node 30
          ≡ some (r, record node { page = m' }))
        × Taken page 0 512 (NodeHdr.get_cell_start page 0) 0 blocks 30 r m')
unfolding get_u16 put_u16 write
allocate_from_freelist_lem_example =
    allocate_from_freelist_lem node blocks 5 30 (omega arith) (omega arith) (omega arith)
      blocks-Chain (omega arith)

-- The region fills the bytes between the two blocks, but for two on each side.
release_block_lem_example :
    (m' : Bytes) × (release_block 5 page 0 432 16 ≡ some (true, m'))
    × Released page 0 512 400 432 16 blocks m'
unfolding get_u16 put_u16 write
release_block_lem_example =
    release_block_lem page 0 512 400 432 16 blocks 5 (omega arith) (omega arith) (omega arith)
      (omega arith) (omega arith) blocks-Chain (omega arith) (omega arith)

-- ===== src/Tests/Bufmgr.antt =====
-- The sorting of the dirty list at a concrete input.
use cub_db.Common.{ℕ, ◌+◌, ◌≡◌, refl, arith, Bool, List, [], ◌∷◌, some}
use cub_db.Bufmgr.Dirtylist.{
  DirtyHdr, merge_loop, dirtylist_merge, place, fill_buckets, collect, sort,
}
use cub_db.Bufmgr.Sort.{Sorted, count, sort-Sorted}

abbrev dirty : ℕ → DirtyHdr
dirty n = record { page_id = n; page_ref = 100 + n }

abbrev dirty_pages : List DirtyHdr
dirty_pages = dirty 7 ∷ dirty 3 ∷ dirty 9 ∷ dirty 4 ∷ dirty 12 ∷ []

sort-dirty_pages : sort dirty_pages ≡ some (dirty 3 ∷ dirty 4 ∷ dirty 7 ∷ dirty 9 ∷ dirty 12 ∷ [])
unfolding sort fill_buckets place collect dirtylist_merge merge_loop
sort-dirty_pages = refl

sort-Sorted_example :
    (out : List DirtyHdr) × (sort dirty_pages ≡ some out)
    × Sorted out
    × ((p : DirtyHdr → Bool) → count p out ≡ count p dirty_pages)
sort-Sorted_example = sort-Sorted dirty_pages (omega arith)

-- ===== src/Bufmgr/Dirtylist.antt =====
-- src/bufmgr.cpp: `dirtylist_merge` and `Dirtylist::sort`. A list linked by the `dirty` pointers is a `List`, and
-- a null pointer the empty one.
use cub_db.Common.{ℕ, zero, suc, true, false, List, [], ◌∷◌, Option, none, some, ltb, ◌>>=◌}

-- `page_id` is the page's, and `page_ref` is the address of the page reference.
pub record DirtyHdr : Type 0 where
  pub page_id : ℕ
  pub page_ref : ℕ

-- The loop, with the links it makes: it ends when one list is empty, and appends the other one.
unfoldable pub merge_loop : List DirtyHdr → List DirtyHdr → List DirtyHdr
merge_loop [] rhs = rhs
merge_loop (x ∷ xs) [] = x ∷ xs
merge_loop (x ∷ xs) (y ∷ ys) = elim (ltb x.page_id y.page_id) [
  | true ↦ x ∷ merge_loop xs (y ∷ ys)
  | false ↦ y ∷ merge_loop (x ∷ xs) ys
]

-- `none` stands for the access through a null pointer.
unfoldable pub dirtylist_merge : List DirtyHdr → List DirtyHdr → Option (List DirtyHdr)
dirtylist_merge [] rhs = none
dirtylist_merge (x ∷ xs) [] = none
dirtylist_merge (x ∷ xs) (y ∷ ys) = some (merge_loop (x ∷ xs) (y ∷ ys))

-- The loop over `arr`, from the bucket that `i` has reached on: `ptr` goes to the first empty bucket, merged with
-- those before it. The last bucket is merged with whatever it holds.
unfoldable pub place : List (List DirtyHdr) → List DirtyHdr → Option (List (List DirtyHdr))
place [] ptr = some []
place (bucket ∷ []) ptr = do last ← dirtylist_merge bucket ptr; some (last ∷ [])
place ([] ∷ next ∷ arr) ptr = some (ptr ∷ next ∷ arr)
place ((b ∷ bs) ∷ next ∷ arr) ptr = do
  ptr' ← dirtylist_merge (b ∷ bs) ptr
  arr' ← place (next ∷ arr) ptr'
  some ([] ∷ arr')

-- `while (in)`.
unfoldable pub fill_buckets : List DirtyHdr → List (List DirtyHdr) → Option (List (List DirtyHdr))
fill_buckets [] arr = some arr
fill_buckets (ptr ∷ rest) arr = do arr' ← place arr (ptr ∷ []); fill_buckets rest arr'

-- The last loop: `ptr` with the buckets that are left.
unfoldable pub collect : List DirtyHdr → List (List DirtyHdr) → Option (List DirtyHdr)
collect ptr [] = some ptr
collect ptr ([] ∷ arr) = collect ptr arr
collect [] ((b ∷ bs) ∷ arr) = collect (b ∷ bs) arr
collect (p ∷ ps) ((b ∷ bs) ∷ arr) = do
  merged ← dirtylist_merge (p ∷ ps) (b ∷ bs)
  collect merged arr

abbrev pub sort_buckets : ℕ
sort_buckets = 32

abbrev pub no_buckets : ℕ → List (List DirtyHdr)
no_buckets zero = []
no_buckets (suc n) = [] ∷ no_buckets n

-- `Dirtylist::sort`, on the list from `begin()` on: the transient list that it returns.
unfoldable pub sort : List DirtyHdr → Option (List DirtyHdr)
sort entries = do arr ← fill_buckets entries (no_buckets sort_buckets); collect [] arr

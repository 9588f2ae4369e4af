-- ===== src/Tests/Freelist.antt =====
-- The freelist on the program's pager, with the references to page 7.
use cub_db.Common.{ℕ, ◌+◌, ◌-◌, ◌≡◌}
use cub_db.Pager.{Pages}
use cub_db.Pager.State.{on_ok, Pager}
use cub_db.Pager.Calls.{pager_pages}
use cub_db.Freelist.{add, remove, RemoveType}
use cub_db.Freelist.References.{counted, units, ref_units, add-remove}
use cub_db.Tests.Pager.{storage}

abbrev Counted : Type 0
Counted = Pager ℕ × (ℕ → ℕ)

abbrev pager : Pages Counted
pager = counted (pager_pages storage)

abbrev page_count : Counted → ℕ
page_count s = s.0.page_count

add-remove_example :
    ((s : Counted) (page_id : ℕ) → (add pager page_count s page_id).1.1 7 ≡ s.1 7 - units 7 page_id)
    × ((s : Counted) (kind : RemoveType) (nearby : ℕ)
        → (remove pager page_count s kind nearby).2.1 7
          ≡ on_ok
              (remove pager page_count s kind nearby).0
              (s.1 7 + ref_units 7 (remove pager page_count s kind nearby).1)
              (s.1 7))
add-remove_example = add-remove (pager_pages storage) (λ p. p.page_count) 7

-- ===== src/Pager/Calls.antt =====
-- src/pager.cpp: the pager's calls by page ID, for the parts above it. A page that is held is in the table of the buffer
-- manager, or is the root.
use cub_db.Common.{ℕ, ◌==◌, Option, none, some, if◌then◌else◌}
use cub_db.Bytes.{Bytes}
use cub_db.Pager.{Pages}
use cub_db.Pager.State.{Pager, Storage, ref_at, set_page, mark_dirty}
use cub_db.Pager.Buffers.{acquire, release}
use cub_db.Bufmgr.Cache

module _ {W : Type 0} (st : Storage W) where
  abbrev reference : Pager W → ℕ → Option ℕ
  reference p id = if id == 1 then some p.bufmgr.root else Cache.query p.bufmgr id

  abbrev page_of : Pager W → Option ℕ → Bytes
  page_of p none i = 0
  page_of p (some a) i = (ref_at p a).page i

  abbrev mark_of : Pager W → Option ℕ → Pager W
  mark_of p none = p
  mark_of p (some a) = mark_dirty p a

  abbrev write_of : Pager W → Option ℕ → Bytes → Pager W
  write_of p none m = p
  write_of p (some a) m = set_page p a m

  unfoldable pub pager_pages : Pages (Pager W)
  pager_pages = record {
    page_size = λ p. p.page_size;
    page = λ p id. page_of p (reference p id);
    acquire = λ p id. let (s, page, q) = acquire st p id in (s, q);
    mark_dirty = λ p id. mark_of p (reference p id);
    release = λ p id action. release p (reference p id) action;
    write = λ p id m. write_of p (reference p id) m;
  }

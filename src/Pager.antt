-- ===== src/Pager.antt =====
-- src/pager.h: the calls of the pager that the parts above it use, and statuses. The modules below are the pager.
pub mod State
pub mod Buffers
pub mod Transaction
pub mod Lifetime
pub mod Invariant
pub mod Purging
pub mod Writing
pub mod Committing
pub mod Reading
pub mod Locking
pub mod Runs
pub mod Errors
pub mod Forgetting
pub mod Releasing
pub mod Calls
use cub_db.Common.{ℕ, ◌≡◌, refl}
use cub_db.Bytes.{Bytes}

-- include/calicodb/status.h, without the subcodes and the messages.
pub data Status : Type 0 where
  ok invalid_argument io_error not_supported corruption not_found busy aborted : Status

-- `if (s.is_ok()) s = ...`, with the states after a failure and after the second operation.
unfoldable pub and_then : {A B : Type 0} → Status → A → B → Status × A × B → Status × A × B
and_then Status.ok a b r = r
and_then failed a b r = (failed, a, b)

pub and_then-ok :
    {A B : Type 0} (s : Status) (a : A) (b : B) (r : Status × A × B)
    → (and_then s a b r).0 ≡ Status.ok
    → (s ≡ Status.ok) × (r.0 ≡ Status.ok)
unfolding and_then
and_then-ok Status.ok a b r h = (refl, h)
and_then-ok failed a b r h = absurd (cc h)

pub data ReleaseAction : Type 0 where
  discard no_cache keep : ReleaseAction

-- The calls that the parts above the pager make, on the states of a pager: nothing is said of what they do. A page reference
-- goes by its page ID. `page` is what a caller reads through `page->data`, and `write` what it stores there.
pub record Pages (S : Type 0) : Type 0 where
  pub page_size : S → ℕ
  pub page : S → ℕ → Bytes
  pub acquire : S → ℕ → Status × S
  pub mark_dirty : S → ℕ → S
  pub release : S → ℕ → ReleaseAction → S
  pub write : S → ℕ → Bytes → S

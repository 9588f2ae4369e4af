-- ===== src/Node/Release.antt =====
-- `release` of a block of at least four bytes, on a chain of free blocks.
use native.Mathlib.Decide.{dec_lt, dec_le, ℕ_discrete}
use cub_db.Common.{ℕ, zero, suc, ◌+◌, ◌-◌, ◌%◌, ◌^◌, ◌≤◌, ◌<◌, ◌≡◌, ◌⊎◌, inl, inr, ◌∙◌, ap}
use cub_db.Common.{refl, sym, arith, List, [], ◌∷◌, ◌++◌, length, Option, some, true}
use cub_db.Common.{lt→ltb, le→ltb_false, ne→beq_false, eq→beq}
use cub_db.Bytes.{Bytes, write, get_u16, put_u16}
use cub_db.Bytes.Laws.{Outside, get_u16_lt, get_u16-put_u16, get_u16_congr, get_u16-put_u16-Apart}
use cub_db.Bytes.Laws.{put_u16-Outside, write_ne, write_self}
use cub_db.Node.{release_search, merge_before, merge_after, release_between, release_block, sub32}
use cub_db.Node.Chain.{Block, Chain, Segment, Agree, free_bytes, free_bytes-append, Chain-Agree}
use cub_db.Node.Chain.{Segment-Agree, Segment-append, Segment-le, Inside}

-- Where the walk stops: before the first block, or behind the block of `plen` bytes at `p`.
data Stop (m : Bytes) (total lo ofs prev x : ℕ) (bs : List Block) (out : Option (ℕ × ℕ))
    : Type 0 where
  first : out ≡ some (prev, ofs) → (ofs ≡ 0) ⊎ (x ≤ ofs) → Stop m total lo ofs prev x bs out
  behind :
      (ws : List Block) (p plen : ℕ) (ys : List Block) (lo' : ℕ)
      → out ≡ some (p, get_u16 m p)
      → bs ≡ ws ++ ((p, plen) ∷ ys)
      → Segment m total lo ofs ws lo' p
      → Chain m total lo' p ((p, plen) ∷ ys)
      → p < x
      → (get_u16 m p ≡ 0) ⊎ (x ≤ get_u16 m p)
      → Stop m total lo ofs prev x bs out

search-Stop :
    (bs : List Block) (fuel : ℕ) (m : Bytes) (total lo ofs prev x : ℕ)
    → Chain m total lo ofs bs
    → length bs < fuel
    → Stop m total lo ofs prev x bs (release_search fuel m prev ofs x)
search-Stop bs zero m total lo ofs prev x c h = absurd (omega arith)
search-Stop [] (suc fuel) m total lo ofs prev x c h =
    unfold release_search in Stop.first (ground arith) (inl c)
search-Stop ((b, len) ∷ bs) (suc fuel) m total lo ofs prev x (e, pos, low, room, size, body, rest)
      h =
    elim (dec_lt b x) [
      | no far ↦
          Stop.first
            (unfold release_search in
              rw (e, ne→beq_false b 0 (omega arith), le→ltb_false b x (omega arith)))
            (inr (omega arith))
      | yes near ↦
          let step : release_search (suc fuel) m prev ofs x
              ≡ release_search fuel m b (get_u16 m b) x =
            unfold release_search in rw (e, ne→beq_false b 0 (omega arith), lt→ltb b x near) in
          let here : Chain m total b b ((b, len) ∷ bs) =
            (refl, pos, omega arith, room, size, body, rest) in
          elim (search-Stop bs fuel m total (b + len + 4) (get_u16 m b) b x rest (omega arith)) [
            | first out stop ↦
                Stop.behind [] b len bs lo (step ∙ out) refl (e, refl)
                  (refl, pos, low, room, size, body, rest) near stop
            | behind ws p plen ys lo' out split seg chain near' stop ↦
                Stop.behind ((b, len) ∷ ws) p plen ys lo' (step ∙ out)
                  (ap (λ (t : List Block). (b, len) ∷ t) split) (e, pos, low, room, size, body, seg)
                  chain near' stop
          ]
    ]

-- What merging the block behind gives: the blocks that are left behind the merged one.
record Merged (m : Bytes) (total o l next' l' d : ℕ) (ys : List Block) : Type 0 where
  behind : List Block
  chain : Chain m total (o + l' + 4) next' behind
  grows : l ≤ l'
  fits : o + l' ≤ total
  bytes : l' + free_bytes behind ≡ l + free_bytes ys + d
  small : d ≤ 3

merge_after-Merged :
    (m : Bytes) (total lo next o l next' l' d : ℕ) (ys : List Block)
    → Chain m total lo next ys
    → o + l ≤ total
    → merge_after m next o l ≡ some (next', l', d)
    → Merged m total o l next' l' d ys
unfolding merge_after
merge_after-Merged m total lo next o l next' l' d [] c h e =
    let en : next' ≡ 0 = ground arith in
    let el : l' ≡ l = ground arith in
    let ed : d ≡ 0 = ground arith in
    record {
      behind = [];
      chain = en;
      grows = omega arith;
      fits = omega arith;
      bytes = omega arith;
      small = omega arith;
    }
merge_after-Merged m total lo next o l next' l' d ((n, k) ∷ ys)
      (en, pos, low, room, size, body, rest) h e =
    elim (dec_le n (o + l + 3)) [
      | yes near ↦
          let over : o + l ≤ n = ground arith in
          let en' : next' ≡ get_u16 m n = ground arith in
          let el : l' ≡ l + (k + (n - (o + l))) = ground arith in
          let ed : d ≡ n - (o + l) = ground arith in
          let end : o + l' + 4 ≡ n + k + 4 = omega arith in
          record {
            behind = ys;
            chain = rw (end, en') rest;
            grows = omega arith;
            fits = omega arith;
            bytes = omega arith;
            small = omega arith;
          }
      | no far ↦
          let en' : next' ≡ n = ground arith in
          let el : l' ≡ l = ground arith in
          let ed : d ≡ 0 = ground arith in
          record {
            behind = (n, k) ∷ ys;
            chain = (en', pos, omega arith, room, size, body, rest);
            grows = omega arith;
            fits = omega arith;
            bytes = omega arith;
            small = omega arith;
          }
    ]

-- The last writes of `release`.
abbrev settle : Bytes → ℕ → ℕ → ℕ → ℕ → ℕ → ℕ → Bytes
settle m h o next l frag start =
    put_u16
      (write (put_u16 (put_u16 m o (next % 2 ^ 16)) (o + 2) (l % 2 ^ 16)) (h + 7) (frag % 256))
      (h + 5) (start % 2 ^ 16)

module _ (m : Bytes) (h o next l frag start : ℕ) (behind : h + 8 ≤ o) where
  linked : Bytes
  linked = put_u16 m o (next % 2 ^ 16)

  sized : Bytes
  unfolding linked
  sized = put_u16 linked (o + 2) (l % 2 ^ 16)

  counted : Bytes
  unfolding sized
  counted = write sized (h + 7) (frag % 256)

  settle-counted_u16 :
      (j : ℕ)
      → Outside (h + 5) 3 j
      → Outside (h + 5) 3 (j + 1)
      → get_u16 (settle m h o next l frag start) j ≡ get_u16 sized j
  unfolding counted
  settle-counted_u16 j p q =
      get_u16-put_u16-Apart counted (h + 5) _ j (omega arith)
      ∙ get_u16_congr counted sized j (write_ne sized (h + 7) _ j (omega arith))
          (write_ne sized (h + 7) _ (j + 1) (omega arith))

  settle_next : next < 2 ^ 16 → get_u16 (settle m h o next l frag start) o ≡ next
  unfolding sized
  settle_next small =
      settle-counted_u16 o (omega arith) (omega arith)
      ∙ get_u16-put_u16-Apart linked (o + 2) _ o (omega arith)
      ∙ get_u16-put_u16 m o _
      ∙ omega arith

  settle_size : l < 2 ^ 16 → get_u16 (settle m h o next l frag start) (o + 2) ≡ l
  unfolding sized
  settle_size small =
      settle-counted_u16 (o + 2) (omega arith) (omega arith)
      ∙ get_u16-put_u16 linked (o + 2) _
      ∙ omega arith

  settle-start : start < 2 ^ 16 → get_u16 (settle m h o next l frag start) (h + 5) ≡ start
  unfolding counted
  settle-start small = get_u16-put_u16 counted (h + 5) _ ∙ omega arith

  settle_frags : settle m h o next l frag start (h + 7) ≡ frag % 256
  unfolding counted
  settle_frags =
      put_u16-Outside counted (h + 5) _ (h + 7) (omega arith) ∙ write_self sized (h + 7) _

  settle-Outside :
      (j : ℕ) → Outside (h + 5) 3 j → Outside o 4 j → settle m h o next l frag start j ≡ m j
  unfolding counted
  settle-Outside j p q =
      put_u16-Outside counted (h + 5) _ j (omega arith)
      ∙ write_ne sized (h + 7) _ j (omega arith)
      ∙ put_u16-Outside linked (o + 2) _ j (omega arith)
      ∙ put_u16-Outside m o _ j (omega arith)

-- What a release of `n` bytes at `x` leaves, from the blocks `bs`, which start at or behind `lo`.
pub record Released (m : Bytes) (h total lo x n : ℕ) (bs : List Block) (m' : Bytes) : Type 0 where
  pub blocks : List Block
  pub reclaimed : ℕ
  pub reclaimed_small : reclaimed ≤ 6
  pub chain : Chain m' total lo (get_u16 m' (h + 5)) blocks
  pub bytes : free_bytes blocks ≡ free_bytes bs + n + reclaimed
  pub frags : m' (h + 7) ≡ sub32 (m (h + 7)) reclaimed % 256
  pub inside : Inside x n blocks
  pub frame : (j : ℕ) → j < lo → Outside (h + 5) 3 j → m' j ≡ m j

Inside-append : (r n : ℕ) (ws bs : List Block) → Inside r n bs → Inside r n (ws ++ bs)
Inside-append r n [] bs h = h
Inside-append r n ((b, len) ∷ ws) bs h = inr (Inside-append r n ws bs h)

-- The merged block `o`, of `l` bytes before the merge with what is behind it, goes into the chain after the
-- blocks `ws`; `base` has the pointer to it already, unless it is the first.
module _ (base : Bytes) (h total lo lo' o l next next' l' after frag start : ℕ) (ws ys : List Block)
    (small : total ≤ 32768) (header : h + 8 ≤ lo) (o_pos : 0 < o) (o_low : lo' ≤ o)
    (room : o + 4 ≤ total) (g : Merged base total o l next' l' after ys) where
  abbrev settled : Bytes
  settled = settle base h o next' l' frag start

  settled-Chain :
      lo ≤ lo'
      → next' < 2 ^ 16
      → (pointer : ℕ) → Segment base total lo pointer ws lo' o
      → Chain settled total lo pointer (ws ++ ((o, l') ∷ g.behind))
  settled-Chain ll small' pointer seg =
      let behind : h + 8 ≤ o = omega arith in
      let before : Agree base settled lo lo' =
        λ j p q. settle-Outside base h o next' l' frag start behind j (omega arith) (omega arith) in
      let tail : Agree base settled (o + l' + 4) total =
        λ j p q. settle-Outside base h o next' l' frag start behind j (omega arith) (omega arith) in
      let rest : Chain settled total (o + l' + 4) next' g.behind =
        Chain-Agree base settled total g.behind _ _ tail g.chain in
      Segment-append settled total ws _ lo pointer lo' o
        (Segment-Agree base settled total ws lo pointer lo' o before seg)
        (
          refl,
          o_pos,
          o_low,
          room,
          settle_size base h o next' l' frag start behind (omega (arith, g.fits)),
          g.fits,
          rw (settle_next base h o next' l' frag start behind small') rest,
        )

  settled-Released :
      (m : Bytes) (x n r : ℕ) (bs : List Block)
      → next' < 2 ^ 16
      → start < 2 ^ 16
      → Segment base total lo start ws lo' o
      → frag ≡ sub32 (m (h + 7)) r
      → r ≤ 6
      → free_bytes ws + (l' + free_bytes g.behind) ≡ free_bytes bs + n + r
      → o ≤ x
      → x + n ≤ o + l'
      → ((j : ℕ) → j < lo → base j ≡ m j)
      → Released m h total lo x n bs settled
  settled-Released m x n r bs small' start_small seg counted' few bytes' from to kept =
      let ll = Segment-le base total ws lo start lo' o seg in
      let behind : h + 8 ≤ o = omega arith in
      record {
        blocks = ws ++ ((o, l') ∷ g.behind);
        reclaimed = r;
        reclaimed_small = few;
        chain =
            rw (settle-start base h o next' l' frag start behind start_small)
              (settled-Chain ll small' start seg);
        bytes = free_bytes-append ws _ ∙ bytes';
        frags = settle_frags base h o next' l' frag start behind ∙ ap (λ (t : ℕ). t % 256) counted';
        inside = Inside-append x n ws _ (inl (from, to));
        frame = λ j p q.
            settle-Outside base h o next' l' frag start behind j q (omega arith) ∙ kept j p;
      }

pub Chain-pointer :
    (m : Bytes) (total lo ofs : ℕ) (bs : List Block)
    → total ≤ 32768
    → Chain m total lo ofs bs
    → ofs < 2 ^ 16
Chain-pointer m total lo ofs [] small c = omega arith
Chain-pointer m total lo ofs ((b, len) ∷ bs) small c = omega arith

-- The region lies before or behind every block.
abbrev pub Clear : ℕ → ℕ → List Block → Type 0
Clear x n [] = Unit
Clear x n ((b, len) ∷ bs) = ((x + n ≤ b) ⊎ ((b + len ≤ x) × (b < x))) × Clear x n bs

Clear-append : (x n : ℕ) (xs ys : List Block) → Clear x n (xs ++ ys) → Clear x n ys
Clear-append x n [] ys c = c
Clear-append x n ((b, len) ∷ xs) ys c = Clear-append x n xs ys c.1

-- The block behind the region starts past its end.
Clear-next :
    (m : Bytes) (total lo next x n : ℕ) (ys : List Block)
    → Chain m total lo next ys
    → Clear x n ys
    → (next ≡ 0) ⊎ (x ≤ next)
    → (next ≡ 0) ⊎ (x + n ≤ next)
Clear-next m total lo next x n [] c k h = inl c
Clear-next m total lo next x n ((b, len) ∷ ys) c k h = inr (omega arith)

merge_after-some :
    (m : Bytes) (next o l : ℕ)
    → (next ≡ 0) ⊎ (o + l ≤ next)
    → (next' l' d : ℕ) × (merge_after m next o l ≡ some (next', l', d))
unfolding merge_after
merge_after-some m next o l h = elim (ℕ_discrete next 0) [
  | yes e ↦ (next, l, 0, ground arith)
  | no e ↦ elim (dec_le next (o + l + 3)) [
    | yes near ↦ (
      get_u16 m next,
      l + (get_u16 m (next + 2) + (next - (o + l))),
      next - (o + l),
      ground arith,
    )
    | no far ↦ (next, l, 0, ground arith)
  ]
]

Segment-snoc :
    (m : Bytes) (total : ℕ) (ws : List Block) (lo ofs lo' p plen end : ℕ)
    → Segment m total lo ofs ws lo' p
    → 0 < p
    → lo' ≤ p
    → p + 4 ≤ total
    → get_u16 m (p + 2) ≡ plen
    → p + plen ≤ total
    → get_u16 m p ≡ end
    → Segment m total lo ofs (ws ++ ((p, plen) ∷ [])) (p + plen + 4) end
Segment-snoc m total [] lo ofs lo' p plen end (e, f) pos low room size body link =
    (e, pos, omega arith, room, size, body, (link, refl))
Segment-snoc m total ((b, len) ∷ ws) lo ofs lo' p plen end
      (e, bpos, blow, broom, bsize, bbody, rest) pos low room size body link =
    (
      e,
      bpos,
      blow,
      broom,
      bsize,
      bbody,
      Segment-snoc m total ws (b + len + 4) (get_u16 m b) lo' p plen end rest pos low room size body
          link,
    )

-- The last writes of `release_between`, by where the block goes.
module _ (m : Bytes) (h prev next x n l d0 next' l' d : ℕ) where
  release_between_first :
      0 < x
      → merge_after m next x n ≡ some (next', l', d)
      → release_between m h 0 next x n ≡ (true, settle m h x next' l' (sub32 (m (h + 7)) d) x)
  unfolding release_between merge_before
  release_between_first pos after =
      let zero_add' : 0 + d ≡ d = omega arith in
      let apart = ne→beq_false x 0 (omega arith) in
      rw (release_between, apart, after, apart, zero_add') refl

  release_between_joined :
      merge_before m prev x n ≡ some (prev, l, d0)
      → merge_after m next prev l ≡ some (next', l', d)
      → release_between m h prev next x n
        ≡ (true, settle m h prev next' l' (sub32 (m (h + 7)) (d0 + d)) (get_u16 m (h + 5)))
  unfolding release_between
  release_between_joined before after =
      let same = eq→beq prev prev refl in rw (release_between, before, same, after, same) refl

  release_between_linked :
      0 < prev
      → prev < x
      → merge_before m prev x n ≡ some (x, n, 0)
      → merge_after (put_u16 m prev (x % 2 ^ 16)) next x n ≡ some (next', l', d)
      → release_between m h prev next x n ≡ (
        true,
        settle (put_u16 m prev (x % 2 ^ 16)) h x next' l' (sub32 (m (h + 7)) d) (get_u16 m (h + 5)),
      )
  unfolding release_between
  release_between_linked pos near before after =
      let zero_add' : 0 + d ≡ d = omega arith in
      let apart = ne→beq_false x prev (omega arith) in
      let some' = ne→beq_false prev 0 (omega arith) in
      rw (release_between, before, apart, some', after, apart, some', zero_add') refl

-- A page with a chain, and the region to release.
module _ (m : Bytes) (h total lo x n : ℕ) (bs : List Block) (small : total ≤ 32768)
    (header : h + 8 ≤ lo) (low : lo ≤ x) (large : 4 ≤ n) (end : x + n ≤ total)
    (chain : Chain m total lo (get_u16 m (h + 5)) bs) (clear : Clear x n bs) where
  -- The region becomes the first block.
  first-Released :
      (get_u16 m (h + 5) ≡ 0) ⊎ (x ≤ get_u16 m (h + 5))
      → (m' : Bytes) × (release_between m h 0 (get_u16 m (h + 5)) x n ≡ (true, m'))
        × Released m h total lo x n bs m'
  first-Released stop =
      let pointer = get_u16 m (h + 5) in
      let (next', l', d, merged) =
        merge_after-some m pointer x n (Clear-next m total lo pointer x n bs chain clear stop) in
      let g = merge_after-Merged m total lo pointer x n next' l' d bs chain end merged in
      let small' = Chain-pointer m total (x + l' + 4) next' g.behind small g.chain in
      (
        settle m h x next' l' (sub32 (m (h + 7)) d) x,
        release_between_first m h 0 pointer x n n 0 next' l' d (omega arith) merged,
        settled-Released m h total lo lo x n 0 next' l' d (sub32 (m (h + 7)) d) x [] bs small header
            (omega arith) low (omega arith) g m x n d bs small' (omega arith) (refl, refl) refl
            (omega (arith, g.small)) (omega (arith, g.bytes)) (omega arith) (omega (arith, g.grows))
            (λ j p. refl),
      )

  -- The walk stopped behind the block of `plen` bytes at `p`.
  module _ (ws ys : List Block) (p plen lo' : ℕ) (split : bs ≡ ws ++ ((p, plen) ∷ ys))
      (seg : Segment m total lo (get_u16 m (h + 5)) ws lo' p)
      (here : Chain m total lo' p ((p, plen) ∷ ys)) (near : p < x)
      (stop : (get_u16 m p ≡ 0) ⊎ (x ≤ get_u16 m p)) where
    total_bytes : free_bytes bs ≡ free_bytes ws + (plen + free_bytes ys)
    total_bytes = ap free_bytes split ∙ free_bytes-append ws _

    Clear-here : (p + plen ≤ x) × Clear x n ys
    Clear-here =
        let (side, rest) = Clear-append x n ws ((p, plen) ∷ ys) (rw (sym split) clear) in
        (omega arith, rest)

    next_far : (get_u16 m p ≡ 0) ⊎ (x + n ≤ get_u16 m p)
    next_far =
        let (e, pos, low', room, size, body, rest) = here in
        Clear-next m total (p + plen + 4) (get_u16 m p) x n ys rest Clear-here.1 stop

    before_joined :
        x ≤ p + plen + 3
        → merge_before m p x n ≡ some (p, n + (plen + (x - (p + plen))), x - (p + plen))
    unfolding merge_before
    before_joined close =
        let (e, pos, low', room, size, body, rest) = here in
        let (over, far) = Clear-here in ground arith

    before_apart : p + plen + 3 < x → merge_before m p x n ≡ some (x, n, 0)
    unfolding merge_before
    before_apart far = let (e, pos, low', room, size, body, rest) = here in ground arith

    pointer_small : get_u16 m (h + 5) < 2 ^ 16
    pointer_small = get_u16_lt m (h + 5)

    -- The region is close behind that block and joins it.
    joined-Released :
        x ≤ p + plen + 3
        → (m' : Bytes) × (release_between m h p (get_u16 m p) x n ≡ (true, m'))
          × Released m h total lo x n bs m'
    joined-Released close =
        let (e, pos, low', room, size, body, rest) = here in
        let (over, apart) = Clear-here in
        let d0 = x - (p + plen) in
        let l = n + (plen + d0) in
        let room' : p + l ≤ total = omega arith in
        let (next', l', d, merged) =
          merge_after-some m (get_u16 m p) p l
            (elim next_far [ inl z ↦ inl z | inr f ↦ inr (omega arith) ]) in
        let g =
          merge_after-Merged m total (p + plen + 4) (get_u16 m p) p l next' l' d ys rest room'
            merged in
        let small' = Chain-pointer m total (p + l' + 4) next' g.behind small g.chain in
        let r = d0 + d in
        (
          settle m h p next' l' (sub32 (m (h + 7)) r) (get_u16 m (h + 5)),
          release_between_joined m h p (get_u16 m p) x n l d0 next' l' d (before_joined close)
              merged,
          settled-Released m h total lo lo' p l 0 next' l' d (sub32 (m (h + 7)) r)
              (get_u16 m (h + 5)) ws ys small header pos low' room g m x n r bs small' pointer_small
              seg refl (omega (arith, g.small)) (omega (arith, g.bytes, total_bytes)) (omega arith)
              (omega (arith, g.grows)) (λ j q. refl),
        )

    -- The region is further behind, and becomes a block of its own.
    linked-Released :
        p + plen + 3 < x
        → (m' : Bytes) × (release_between m h p (get_u16 m p) x n ≡ (true, m'))
          × Released m h total lo x n bs m'
    linked-Released far =
        let (e, pos, low', room, size, body, rest) = here in
        let (over, apart) = Clear-here in
        let base = put_u16 m p (x % 2 ^ 16) in
        let ptr : get_u16 base p ≡ x = get_u16-put_u16 m p _ ∙ omega arith in
        let size' : get_u16 base (p + 2) ≡ plen =
          get_u16-put_u16-Apart m p _ (p + 2) (omega arith) ∙ size in
        let before : Agree m base lo lo' = λ j q q'. put_u16-Outside m p _ j (omega arith) in
        let tail : Agree m base (p + plen + 4) total =
          λ j q q'. put_u16-Outside m p _ j (omega arith) in
        let seg' : Segment base total lo (get_u16 m (h + 5)) (ws ++ ((p, plen) ∷ [])) (p + plen + 4)
            x =
          Segment-snoc base total ws lo (get_u16 m (h + 5)) lo' p plen x
            (Segment-Agree m base total ws lo (get_u16 m (h + 5)) lo' p before seg) pos low' room
            size' body ptr in
        let rest' : Chain base total (p + plen + 4) (get_u16 m p) ys =
          Chain-Agree m base total ys (p + plen + 4) (get_u16 m p) tail rest in
        let (next', l', d, merged) = merge_after-some base (get_u16 m p) x n next_far in
        let g =
          merge_after-Merged base total (p + plen + 4) (get_u16 m p) x n next' l' d ys rest' end
            merged in
        let small' = Chain-pointer base total (x + l' + 4) next' g.behind small g.chain in
        (
          settle base h x next' l' (sub32 (m (h + 7)) d) (get_u16 m (h + 5)),
          release_between_linked m h p (get_u16 m p) x n n 0 next' l' d pos near (before_apart far)
              merged,
          settled-Released base h total lo (p + plen + 4) x n 0 next' l' d (sub32 (m (h + 7)) d)
              (get_u16 m (h + 5)) (ws ++ ((p, plen) ∷ [])) ys small header (omega arith)
              (omega arith) (omega arith) g m x n d bs small' pointer_small seg' refl
              (omega (arith, g.small))
              (omega (arith, g.bytes, total_bytes, free_bytes-append ws ((p, plen) ∷ [])))
              (omega arith) (omega (arith, g.grows))
              (λ j q.
                put_u16-Outside m p _ j
                  (omega (arith, Segment-le m total ws lo (get_u16 m (h + 5)) lo' p seg))),
        )

-- Releasing a region of at least four bytes that is in no free block leaves a chain of free blocks which has its
-- bytes and up to six fragment bytes more, taken off the count; the bytes before the chain stay, but for the list's
-- start and the count of fragment bytes.
pub release_block_lem :
    (m : Bytes) (h total lo x n : ℕ) (bs : List Block) (fuel : ℕ)
    → total ≤ 32768
    → h + 8 ≤ lo
    → lo ≤ x
    → 4 ≤ n
    → x + n ≤ total
    → Chain m total lo (get_u16 m (h + 5)) bs
    → Clear x n bs
    → length bs < fuel
    → (m' : Bytes) × (release_block fuel m h x n ≡ some (true, m'))
      × Released m h total lo x n bs m'
unfolding release_block
release_block_lem m h total lo x n bs fuel small header low large end chain clear enough =
    elim (search-Stop bs fuel m total lo (get_u16 m (h + 5)) 0 x chain enough) [
      | first out stop ↦
          let (m', e, r) =
            first-Released m h total lo x n bs small header low large end chain clear stop in
          (m', rw (release_block, out, e) refl, r)
      | behind ws p plen ys lo' out split seg here near stop ↦
          let (m', e, r) : (m' : Bytes) × (release_between m h p (get_u16 m p) x n ≡ (true, m'))
              × Released m h total lo x n bs m' =
            elim (dec_le x (p + plen + 3)) [
              | yes close ↦
                  joined-Released m h total lo x n bs small header low large end chain clear ws ys p
                    plen lo' split seg here near stop close
              | no far ↦
                  linked-Released m h total lo x n bs small header low large end chain clear ws ys p
                    plen lo' split seg here near stop (omega arith)
            ] in
          (m', rw (release_block, out, e) refl, r)
    ]

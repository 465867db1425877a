-- ===== src/L1Oracle/Blocks.antt =====
-- Block numbers stay unique through reorganisations: rollup/internal/orm/l1_block.go.
use scroll.Common.{
  ℕ, ◌+◌, ◌<◌, ◌≤◌, ◌≡◌, ◌≢◌, refl, subst, Bool, true, not, some, List, [], ◌∷◌, ◌++◌, All, arith,
  length, ltb, leb, if◌then◌else◌, if_both, select, count_where,
}
use scroll.Relayer.Fetched.{All-weaken, All-select}
use scroll.L1Oracle.{L1Block, min_block_number, insert_from, insert_l1_blocks}

-- Numbers that are pairwise different.
abbrev pub IsUnique : List L1Block → Type 0
IsUnique [] = Unit
IsUnique (b ∷ bs) = All (λ (c : L1Block). b.number ≢ c.number) bs × IsUnique bs

All-selected :
    (P : L1Block → Type 0) (q : L1Block → Bool) (bs : List L1Block) → All P bs → All P (select q bs)
All-selected P q bs a =
    All-weaken (λ b. P b × (q b ≡ true)) P (λ b h. h.0) (select q bs) (All-select P q bs a)

select-IsUnique : (q : L1Block → Bool) (bs : List L1Block) → IsUnique bs → IsUnique (select q bs)
select-IsUnique q [] u = tt
select-IsUnique q (b ∷ bs) u =
    if_both IsUnique (q b)
      (λ e. (All-selected (λ c. b.number ≢ c.number) q bs u.0, select-IsUnique q bs u.1))
      (λ e. select-IsUnique q bs u.1)

All-append : (P : L1Block → Type 0) (xs ys : List L1Block) → All P xs → All P ys → All P (xs ++ ys)
All-append P [] ys a b = b
All-append P (x ∷ xs) ys a b = (a.0, All-append P xs ys a.1 b)

append-IsUnique :
    (low : ℕ) (xs ys : List L1Block)
    → All (λ (b : L1Block). b.number < low) xs
    → All (λ (b : L1Block). low ≤ b.number) ys
    → IsUnique xs
    → IsUnique ys
    → IsUnique (xs ++ ys)
append-IsUnique low [] ys below above u v = v
append-IsUnique low (x ∷ xs) ys below above u v =
    let small = below.0 in
    (
      All-append (λ c. x.number ≢ c.number) xs ys u.0
          (All-weaken (λ c. low ≤ c.number) (λ c. x.number ≢ c.number) (λ c h e. omega arith) ys
            above),
      append-IsUnique low xs ys below.1 above u.1 v,
    )

min_block_number-le :
    (low : ℕ) (bs : List L1Block)
    → (min_block_number low bs ≤ low) × All (λ (b : L1Block). min_block_number low bs ≤ b.number) bs
unfolding min_block_number
min_block_number-le low [] = (omega arith, tt)
min_block_number-le low (b ∷ bs) =
    let next = if ltb b.number low then b.number else low in
    let rest = min_block_number-le next bs in
    let least = rest.0 in
    let first : next ≤ low = ground arith in
    let second : next ≤ b.number = ground arith in (omega arith, (omega arith, rest.1))

All-refl : (bs : List L1Block) → All (λ (c : L1Block). c.number ≡ c.number) bs
All-refl [] = tt
All-refl (b ∷ bs) = (refl, All-refl bs)

-- If the numbers of the table are pairwise different, and so are those of the new blocks, then a
-- table that InsertL1Blocks leaves has pairwise different numbers.
pub insert-IsUnique :
    (new blocks after : List L1Block)
    → IsUnique new
    → IsUnique blocks
    → insert_l1_blocks new blocks ≡ some after
    → IsUnique after
unfolding insert_l1_blocks insert_from
insert-IsUnique [] blocks after u v e = let same : blocks ≡ after = cc in subst IsUnique same v
insert-IsUnique (b ∷ bs) blocks after u v e =
    let low = min_block_number b.number bs in
    let kept = select (λ (c : L1Block). not (leb low c.number)) blocks in
    let least = min_block_number-le b.number bs in
    let all =
      append-IsUnique low kept (b ∷ bs)
        (All-weaken (λ (c : L1Block). (c.number ≡ c.number) × (not (leb low c.number) ≡ true))
          (λ c. c.number < low) (λ c h. let t = h.1 in ground arith) kept
          (All-select (λ c. c.number ≡ c.number) (λ c. not (leb low c.number)) blocks
            (All-refl blocks)))
        least (select-IsUnique (λ c. not (leb low c.number)) blocks v) u in
    if_both (λ o. o ≡ some after → IsUnique after)
      (leb (length (b ∷ bs) + 64) (count_where (λ (c : L1Block). leb low c.number) blocks))
      (λ t x. absurd (cc))
      (λ f x. let same : kept ++ b ∷ bs ≡ after = cc in subst IsUnique same all) e

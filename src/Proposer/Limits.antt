-- ===== src/Proposer/Limits.antt =====
-- The limits on a proposed chunk, forks included:
-- rollup/internal/controller/watcher/chunk_proposer.go.
use scroll.Common.{
  ℕ, zero, suc, ◌+◌, ◌≤◌, ◌<◌, ◌≡◌, ◌⊎◌, refl, sym, ap, ◌∙◌, subst, inl, inr, some, List, [], ◌∷◌,
  length, take, select, All, length-take, ok, arith, leb, max_int64,
}
use scroll.Forks.{blocks_until_fork}
use scroll.Forks.Heights.{IsAscending}
use scroll.Forks.Ranges.{IsDistance, blocks_until_fork-IsDistance}
use scroll.Encoding.{CodecVersion, codec_v0, Block, Chunk}
use scroll.Encoding.{Marshaller}
use scroll.Proposer.{
  Config, calculate_chunk_metrics, propose_from, max_blocks_this_chunk, get_l2_blocks_ge_height,
  propose_chunk,
}
use scroll.Proposer.Bounds.{IsWithinLimits, IsFitting-IsWithinLimits}
use scroll.Proposer.Growth.{IsFitting, IsPrefix, version_at, propose_from-IsPrefix}

-- The version of the codec that a chunk's first block chooses.
abbrev pub version_of : Config → Chunk → CodecVersion
version_of cfg [] = codec_v0
version_of cfg (b ∷ bs) = version_at cfg b

-- The blocks from a height on.
abbrev pub blocks_from : ℕ → List Block → List Block
blocks_from height blocks = select (λ b. leb height b.header.number) blocks

not-empty :
    (est : Marshaller) (cfg : Config) (version : CodecVersion) → IsFitting est cfg version [] → ⊥
unfolding calculate_chunk_metrics
not-empty est cfg version (m, measured, fits) = absurd (cc)

prefix-version :
    (est : Marshaller) (cfg : Config) (b : Block) (bs chunk : List Block) (n : ℕ)
    → chunk ≡ take n (b ∷ bs)
    → IsFitting est cfg (version_at cfg b) chunk
    → IsFitting est cfg (version_of cfg chunk) chunk
prefix-version est cfg b bs chunk zero e w =
    absurd (not-empty est cfg (version_at cfg b) (subst (IsFitting est cfg (version_at cfg b)) e w))
prefix-version est cfg b bs chunk (suc n) e w =
    subst (λ v. IsFitting est cfg v chunk) (sym (ap (version_of cfg) e)) w

propose_from-version :
    (est : Marshaller) (cfg : Config) (max_blocks now : ℕ) (blocks chunk : List Block)
    → propose_from est cfg max_blocks now blocks ≡ ok (some chunk)
    → IsPrefix chunk blocks × IsFitting est cfg (version_of cfg chunk) chunk
unfolding propose_from
propose_from-version est cfg max_blocks now [] chunk e = absurd (cc)
propose_from-version est cfg max_blocks now (b ∷ bs) chunk e =
    let ((n, shape), within) = propose_from-IsPrefix est cfg max_blocks now b bs chunk e in
    ((n, shape), prefix-version est cfg b bs chunk n shape within)

pub prefix-take {ℓ} :
    {A : Type ℓ} (n k : ℕ) (xs : List A) → (j : ℕ) × (take n (take k xs) ≡ take j xs)
prefix-take zero k xs = (0, refl)
prefix-take (suc n) zero xs = (0, refl)
prefix-take (suc n) (suc k) [] = (0, refl)
prefix-take (suc n) (suc k) (x ∷ xs) = let (j, e) = prefix-take n k xs in (suc j, ap (λ t. x ∷ t) e)

pub All-take {ℓ κ} :
    {A : Type ℓ} (P : A → Type κ) (n : ℕ) (xs : List A) → All P xs → All P (take n xs)
All-take P zero xs a = tt
All-take P (suc n) [] a = tt
All-take P (suc n) (x ∷ xs) a = (a.0, All-take P n xs a.1)

max_blocks-cases :
    (cfg : Config) (height : ℕ)
    → 0 < cfg.max_block_num_per_chunk
    → (0 < max_blocks_this_chunk cfg height)
      × (max_blocks_this_chunk cfg height ≤ cfg.max_block_num_per_chunk)
      × ((blocks_until_fork height cfg.fork_heights ≡ 0)
          ⊎ (max_blocks_this_chunk cfg height ≤ blocks_until_fork height cfg.fork_heights))
unfolding max_blocks_this_chunk
max_blocks-cases cfg height pos = ground arith

found-take :
    (height limit : ℕ) (blocks : List Block)
    → 0 < limit
    → limit ≤ max_int64
    → get_l2_blocks_ge_height height limit blocks ≡ take limit (blocks_from height blocks)
unfolding get_l2_blocks_ge_height
found-take height limit blocks pos small = ground arith

-- What a proposed chunk is: some first blocks of those from the height on, at most the
-- configured number, and within the limits.
pub record IsProposed (est : Marshaller) (cfg : Config) (height : ℕ) (blocks : List Block)
    (chunk : Chunk) : Type 0 where
  pub prefix : IsPrefix chunk (blocks_from height blocks)
  pub within : IsWithinLimits est cfg (version_of cfg chunk) chunk
  pub count : length chunk ≤ cfg.max_block_num_per_chunk

module _ (est : Marshaller) (cfg : Config) (now height : ℕ) (blocks : List Block) (chunk : Chunk)
    (pos : 0 < cfg.max_block_num_per_chunk) (small : cfg.max_block_num_per_chunk ≤ max_int64)
    (proposed : propose_chunk est cfg now (some height) (some blocks) ≡ ok (some chunk)) where
  taken :
      IsPrefix chunk (take (max_blocks_this_chunk cfg height) (blocks_from height blocks))
      × IsFitting est cfg (version_of cfg chunk) chunk
  unfolding propose_chunk
  taken =
      let max_blocks = max_blocks_this_chunk cfg height in
      let (positive, less, until) = max_blocks-cases cfg height pos in
      subst (λ found. IsPrefix chunk found × IsFitting est cfg (version_of cfg chunk) chunk)
        (found-take height max_blocks blocks positive (omega arith))
        (propose_from-version est cfg max_blocks now
          (get_l2_blocks_ge_height height max_blocks blocks) chunk proposed)

  -- If the configured number of blocks is positive and fits an int64, then a proposed chunk
  -- consists of some first blocks of the table from the given height on and has at most that number
  -- of blocks; its transactions and its greatest row consumption are within their limits; and, with
  -- the codec version of its first block, so are its calldata and its overestimated gas under
  -- version 0, and its blob under version 1.
  pub propose_chunk-IsProposed : IsProposed est cfg height blocks chunk
  propose_chunk-IsProposed =
      let (positive, less, until) = max_blocks-cases cfg height pos in
      let ((n, shape), within) = taken in
      let (j, whole) =
        prefix-take n (max_blocks_this_chunk cfg height) (blocks_from height blocks) in
      record {
        prefix = (j, shape ∙ whole);
        within = IsFitting-IsWithinLimits est cfg (version_of cfg chunk) chunk within;
        count = omega (
          arith,
          ap length shape,
          length-take n (take (max_blocks_this_chunk cfg height) (blocks_from height blocks)),
          length-take (max_blocks_this_chunk cfg height) (blocks_from height blocks),
        );
      }

-- Blocks numbered one by one from a height.
abbrev pub IsRun : ℕ → List Block → Type 0
IsRun height [] = Unit
IsRun height (b ∷ bs) = (b.header.number ≡ height) × IsRun (suc height) bs

-- No fork lies above the height and not above the block.
abbrev pub IsBeforeForks : ℕ → List ℕ → Block → Type 0
IsBeforeForks height forks b = All (λ f. (f ≤ height) ⊎ (b.header.number < f)) forks

IsRun-take :
    (height k : ℕ) (bs : List Block)
    → IsRun height bs
    → All (λ b. b.header.number < height + k) (take k bs)
IsRun-take height zero bs r = tt
IsRun-take height (suc k) [] r = tt
IsRun-take height (suc k) (b ∷ bs) r = (
  omega (arith, r.0),
  subst (λ t. All (λ (x : Block). x.header.number < t) (take k bs)) (omega arith)
      (IsRun-take (suc height) k bs r.1),
)

-- Blocks below the next fork are before every fork above the height.
below-IsBeforeForks :
    (height k : ℕ) (forks : List ℕ) (b : Block)
    → (blocks_until_fork height forks ≡ 0) ⊎ (k ≤ blocks_until_fork height forks)
    → IsDistance height forks (blocks_until_fork height forks)
    → b.header.number < height + k
    → IsBeforeForks height forks b
below-IsBeforeForks height k forks b until (inl (none_above, below)) small = All-weaken forks below
  where
    All-weaken : (fs : List ℕ) → All (λ f. f ≤ height) fs → IsBeforeForks height fs b
    All-weaken [] a = tt
    All-weaken (f ∷ fs) a = (inl a.0, All-weaken fs a.1)
below-IsBeforeForks height k forks b until (inr (positive, at, above)) small =
    All-weaken forks above
  where
    All-weaken :
        (fs : List ℕ)
        → All (λ f. (f ≤ height) ⊎ (height + blocks_until_fork height forks ≤ f)) fs
        → IsBeforeForks height fs b
    All-weaken [] a = tt
    All-weaken (f ∷ fs) a = (ground arith, All-weaken fs a.1)

All-IsBeforeForks :
    (height k : ℕ) (forks : List ℕ) (bs : List Block)
    → (blocks_until_fork height forks ≡ 0) ⊎ (k ≤ blocks_until_fork height forks)
    → IsDistance height forks (blocks_until_fork height forks)
    → All (λ b. b.header.number < height + k) bs
    → All (IsBeforeForks height forks) bs
All-IsBeforeForks height k forks [] until d a = tt
All-IsBeforeForks height k forks (b ∷ bs) until d a = (
  below-IsBeforeForks height k forks b until d a.0,
  All-IsBeforeForks height k forks bs until d a.1,
)

-- If the configured number of blocks is positive and fits an int64, the fork heights are
-- ascending, and the blocks from the given height on are numbered one by one from it, then every
-- block of a proposed chunk is numbered below every fork that lies above the height: no chunk has
-- blocks of both sides of a fork.
pub propose_chunk-IsBeforeForks :
    (est : Marshaller) (cfg : Config) (now height : ℕ) (blocks : List Block) (chunk : Chunk)
    → 0 < cfg.max_block_num_per_chunk
    → cfg.max_block_num_per_chunk ≤ max_int64
    → IsAscending cfg.fork_heights
    → IsRun height (blocks_from height blocks)
    → propose_chunk est cfg now (some height) (some blocks) ≡ ok (some chunk)
    → All (IsBeforeForks height cfg.fork_heights) chunk
propose_chunk-IsBeforeForks est cfg now height blocks chunk pos small ascending run proposed =
    let max_blocks = max_blocks_this_chunk cfg height in
    let (positive, less, until) = max_blocks-cases cfg height pos in
    let ((n, shape), within) = taken est cfg now height blocks chunk pos small proposed in
    let low = IsRun-take height max_blocks (blocks_from height blocks) run in
    let below =
      All-take (λ b. b.header.number < height + max_blocks) n
        (take max_blocks (blocks_from height blocks)) low in
    subst (All (IsBeforeForks height cfg.fork_heights)) (sym shape) (
      All-IsBeforeForks height max_blocks cfg.fork_heights
        (take n (take max_blocks (blocks_from height blocks))) until
        (blocks_until_fork-IsDistance height cfg.fork_heights ascending) below)

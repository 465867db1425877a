-- ===== src/Forks.antt =====
-- Hard-fork heights: common/forks/forks.go.
-- `params.ChainConfig` belongs to go-ethereum. The code reads one nullable block number for each
-- fork, so a configuration is a function to `Option ℕ`. A Go map is a list of its entries with
-- distinct keys; the order in which Go ranges over it is not used, as the heights are sorted.
pub mod Heights
pub mod Ranges
pub mod Tests
use scroll.Common.{
  ℕ, ◌-◌, Bool, false, ◌||◌, Option, none, some, List, [], ◌∷◌, map, ltb, leb, ◌==◌, if◌then◌else◌,
  u64, max_int64,
}

-- The forks in the order of the literal that the code ranges over.
pub data ForkName : Type 0 where
  homestead dao_fork eip150 eip155 eip158 byzantium constantinople petersburg istanbul : ForkName
  muir_glacier berlin london arrow_glacier archimedes shanghai bernoulli curie : ForkName

pub ForkName-discrete : Discrete ForkName
ForkName-discrete = hlevel

abbrev pub fork_order : List ForkName
fork_order =
    homestead ∷ dao_fork ∷ eip150 ∷ eip155 ∷ eip158 ∷ byzantium ∷ constantinople ∷ petersburg
    ∷ istanbul ∷ muir_glacier ∷ berlin ∷ london ∷ arrow_glacier ∷ archimedes ∷ shanghai ∷ bernoulli
    ∷ curie ∷ []

abbrev pub ChainConfig : Type 0
ChainConfig = ForkName → Option ℕ

-- map[uint64]string
abbrev pub HeightNames : Type 0
HeightNames = List (ℕ × ForkName)

-- forkHeightNameMap[height] = fork.name
pub put_name : ℕ → ForkName → HeightNames → HeightNames
put_name k n [] = (k, n) ∷ []
put_name k n ((j, m) ∷ r) = if j == k then (k, n) ∷ r else (j, m) ∷ put_name k n r

-- One round of the first loop: a fork without a block is skipped.
pub add_fork : Option ℕ → ForkName → HeightNames → HeightNames
add_fork none n m = m
add_fork (some block) n m = put_name (u64 block) n m

pub fork_height_name_map : ChainConfig → List ForkName → HeightNames → HeightNames
fork_height_name_map config [] m = m
fork_height_name_map config (n ∷ ns) m = fork_height_name_map config ns (add_fork (config n) n m)

abbrev pub heights_of : HeightNames → List ℕ
heights_of [] = []
heights_of ((h, n) ∷ r) = h ∷ heights_of r

-- Membership in the set of heights, map[uint64]bool.
pub mem : ℕ → List ℕ → Bool
mem h [] = false
mem h (x ∷ xs) = (x == h) || mem h xs

-- sort.Slice by `<`
pub insert : ℕ → List ℕ → List ℕ
insert h [] = h ∷ []
insert h (x ∷ xs) = if leb h x then h ∷ x ∷ xs else x ∷ insert h xs

pub sort : List ℕ → List ℕ
unfolding insert
sort [] = []
sort (x ∷ xs) = insert x (sort xs)

-- The sorted heights; the set of heights; the entries of the map from names to heights.
pub collect_sorted_fork_heights : ChainConfig → List ℕ × (ℕ → Bool) × HeightNames
unfolding fork_height_name_map add_fork put_name sort mem
collect_sorted_fork_heights config =
    let m = fork_height_name_map config fork_order [] in
    (sort (heights_of m), λ h. mem h (heights_of m), m)

unfoldable pub blocks_until_fork : ℕ → List ℕ → ℕ
blocks_until_fork block_height [] = 0
blocks_until_fork block_height (fork_height ∷ r) =
    if ltb block_height fork_height
    then fork_height - block_height
    else blocks_until_fork block_height r

-- The loop of `BlockRange`, with the value that `from` has so far.
pub block_range_from : ℕ → ℕ → List ℕ → ℕ × ℕ
block_range_from current from [] = (from, max_int64)
block_range_from current from (height ∷ r) =
    if ltb current height then (from, height) else block_range_from current height r

unfoldable pub block_range : ℕ → List ℕ → ℕ × ℕ
unfolding block_range_from
block_range current heights = block_range_from current 0 heights

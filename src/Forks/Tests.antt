-- ===== src/Forks/Tests.antt =====
-- Concrete runs of common/forks/forks.go.
use scroll.Common.{ℕ, ◌≡◌, refl, none, some, List, [], ◌∷◌, max_int64}
use scroll.Forks.{
  homestead, shanghai, curie, ChainConfig, collect_sorted_fork_heights, blocks_until_fork,
  block_range,
}

-- Two forks at one height, and one above them that the order of the forks names first.
abbrev three_forks : ChainConfig
three_forks n = elim n [ homestead ↦ some 20 | shanghai ↦ some 10 | curie ↦ some 20 | _ ↦ none ]

abbrev heights : List ℕ
heights = 10 ∷ 20 ∷ 30 ∷ []

collected : (collect_sorted_fork_heights three_forks).0 ≡ 10 ∷ 20 ∷ []
unfolding collect_sorted_fork_heights
collected = refl

until_fork : blocks_until_fork 15 heights ≡ 5
unfolding blocks_until_fork
until_fork = refl

range : block_range 20 heights ≡ (20, 30)
unfolding block_range
range = refl

last_range : block_range 30 heights ≡ (30, max_int64)
unfolding block_range
last_range = refl

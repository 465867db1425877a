-- ===== src/WithdrawTrie/Nodes.antt =====
-- The Merkle tree that the withdraw trie stands for, as a description apart from the code of
-- bridge-history-api/internal/utils/withdraw_trie.go.
use scroll.Common.{ℕ, zero, suc, ◌+◌, ◌*◌, ◌^◌, ◌<◌, ◌≤◌, ◌≡◌, ◌⊎◌, List, get_or}

-- The hash of each position of a level; a position without a message has hash 0.
abbrev pub Level : Type 0
Level = ℕ → ℕ

abbrev pub leaves : List ℕ → Level
leaves hashes i = get_or hashes i 0

module _ (keccak2 : ℕ → ℕ → ℕ) where
  -- The level above: a node is the hash of its two children.
  abbrev pub up : Level → Level
  up level i = keccak2 (level (2 * i)) (level (2 * i + 1))

  -- The node at a position of the level that is `depth` above.
  abbrev pub node : ℕ → Level → ℕ → ℕ
  node zero level i = level i
  node (suc depth) level i = node depth (up level) i

-- `depth` is the least height of a tree that has room for a position.
pub record IsDepthOf (index depth : ℕ) : Type 0 where
  pub fits : index < 2 ^ depth
  pub least : (depth ≡ 0) ⊎ (2 ^ depth ≤ 2 * index)

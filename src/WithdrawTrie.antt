-- ===== src/WithdrawTrie.antt =====
-- The withdraw trie: bridge-history-api/internal/utils/withdraw_trie.go.
-- A hash is a number, and Keccak256 of two hashes is a function. An array of hashes is a function
-- of the index; an access past its length panics, which is `none`. The loops over the bits of a
-- message's nonce recur on the number of array entries that are left, so they have no other fuel.
-- The branches have 40 entries as NewWithdrawTrie makes them; those that Initialize makes have 64,
-- of which those from 40 on are reached only by nonces of 2^39 and more.
pub mod Nodes
pub mod Branches
pub mod Roots
pub mod Cached
pub mod Proofs
pub mod Appends
pub mod Messages
pub mod Restores
pub mod Restarts
pub mod Bytes
pub mod Tests
use scroll.Common.{
  ℕ, zero, suc, ◌+◌, ◌-◌, ◌/◌, ◌%◌, Bool, true, false, Option, none, some, List, [], ◌∷◌, ◌++◌,
  length, take, drop, ◌==◌, if◌then◌else◌, u64, add64, sub64, ◌*◌, put_uint, get_uint,
}

-- MaxHeight
abbrev pub max_height : ℕ
max_height = 40

-- An array of hashes.
abbrev pub Hashes : Type 0
Hashes = ℕ → ℕ

abbrev pub set_at : ℕ → ℕ → Hashes → Hashes
set_at i x a k = if k == i then x else a k

pub record Trie : Type 0 where
  pub next_message_nonce : ℕ
  pub height : Option ℕ  -- `none` is -1
  pub branches : Hashes

-- decodeBytesToMerkleProof, on bytes whose number is a multiple of 32
unfoldable pub decode_from : ℕ → List ℕ → List ℕ
decode_from zero bytes = []
decode_from (suc n) bytes = get_uint (take 32 bytes) ∷ decode_from n (drop 32 bytes)

unfoldable pub decode_bytes_to_merkle_proof : List ℕ → List ℕ
unfolding decode_from
decode_bytes_to_merkle_proof bytes = decode_from (length bytes / 32) bytes

-- encodeMerkleProofToBytes
unfoldable pub encode_merkle_proof_to_bytes : List ℕ → List ℕ
encode_merkle_proof_to_bytes [] = []
encode_merkle_proof_to_bytes (h ∷ hs) = put_uint 32 h ++ encode_merkle_proof_to_bytes hs

abbrev pub put_proof : ℕ → Option (List ℕ × Hashes) → Option (List ℕ × Hashes)
put_proof p none = none
put_proof p (some (ps, branches)) = some (p ∷ ps, branches)

module _ (keccak2 : ℕ → ℕ → ℕ) where
  -- The entries of `zeroes`.
  unfoldable pub zeroes : ℕ → ℕ
  zeroes zero = 0
  zeroes (suc h) = keccak2 (zeroes h) (zeroes h)

  -- The loop of updateBranchWithNewMessage, with `room` entries of the array from `height` on.
  unfoldable pub update_from : ℕ → ℕ → Hashes → ℕ → ℕ → Option (List ℕ × Hashes)
  unfolding zeroes
  update_from zero height branches index root = none
  update_from (suc room) height branches index root = elim (index == 0) [
    | true ↦ some ([], set_at height root branches)
    | false ↦ elim (index % 2 == 0) [
      | true ↦ put_proof (zeroes height) (
          update_from room (suc height) (set_at height root branches) (index / 2)
            (keccak2 root (zeroes height)))
      | false ↦
          put_proof (branches height)
            (update_from room (suc height) branches (index / 2) (keccak2 (branches height) root))
    ]
  ]

  -- updateBranchWithNewMessage
  unfoldable pub update_branch_with_new_message : Hashes → ℕ → ℕ → Option (List ℕ × Hashes)
  unfolding update_from
  update_branch_with_new_message branches index msg_hash =
      update_from max_height 0 branches index msg_hash

-- NewWithdrawTrie
abbrev pub new_withdraw_trie : Trie
new_withdraw_trie = record { next_message_nonce = 0; height = none; branches = λ k. 0 }

-- MessageRoot
unfoldable pub message_root : Trie → ℕ
message_root t = elim t.height [ none ↦ 0 | some h ↦ t.branches h ]

-- The index of the sibling, `index ^ 1`.
abbrev pub flip : ℕ → ℕ
flip index = if index % 2 == 0 then index + 1 else index - 1

-- []map[uint64]common.Hash, where a missing key reads as the zero hash.
abbrev pub Cache : Type 0
Cache = ℕ → Hashes

abbrev pub put_cache : ℕ → ℕ → ℕ → Cache → Cache
put_cache h i x cache k = if k == h then set_at i x (cache k) else cache k

-- The loop that caches the branches, with the number of rounds left.
unfoldable pub cache_branches : ℕ → ℕ → ℕ → Hashes → Cache → Cache
cache_branches zero h index branches cache = cache
cache_branches (suc n) h index branches cache =
    cache_branches n (suc h) (index / 2) branches
      (if index % 2 == 1 then put_cache h (flip index) (branches h) cache else cache)

unfoldable pub cache_leaves : ℕ → List ℕ → Cache → Cache
cache_leaves index [] cache = cache
cache_leaves index (m ∷ ms) cache = cache_leaves (add64 index 1) ms (put_cache 0 index m cache)

-- The hashes of a proof, from the cache.
unfoldable pub retrieve : ℕ → ℕ → ℕ → Cache → List ℕ
retrieve zero h index cache = []
retrieve (suc n) h index cache = cache h (flip index) ∷ retrieve n (suc h) (index / 2) cache

module _ (keccak2 : ℕ → ℕ → ℕ) where
  -- The loop over the pairs of a level, with the number of rounds left.
  unfoldable pub build_pairs : ℕ → ℕ → ℕ → Cache → Cache
  build_pairs zero h i cache = cache
  build_pairs (suc n) h i cache =
      build_pairs n h (i + 2)
        (put_cache (suc h) (i / 2) (keccak2 (cache h i) (cache h (flip i))) cache)

  -- One level: the loop over the pairs runs from the even index at or below the least.
  unfoldable pub build_level : ℕ → ℕ → ℕ → Cache → Cache
  unfolding zeroes build_pairs
  build_level h min_index max_index cache =
      let from = min_index / 2 * 2 in
      build_pairs ((max_index - from) / 2 + 1) h from (
        if max_index % 2 == 0 then put_cache h (flip max_index) (zeroes keccak2 h) cache else cache)

  -- The loop over the levels, with the number of levels above `h` that the cache has.
  unfoldable pub build : ℕ → ℕ → ℕ → ℕ → Cache → Option Cache
  unfolding build_level
  build zero h min_index max_index cache = if max_index == 0 then some cache else none
  build (suc room) h min_index max_index cache = elim (max_index == 0) [
    | true ↦ some cache
    | false ↦
        build room (suc h) (min_index / 2) (max_index / 2) (build_level h min_index max_index cache)
  ]

  -- The end of a round of the loop that updates the branches.
  abbrev pub put_branches : Trie → Option (List ℕ × Hashes) → Option Trie
  put_branches t none = none
  put_branches t (some (proof, branches)) = some (record {
    next_message_nonce = add64 t.next_message_nonce 1;
    height = some (length proof);
    branches = branches;
  })

  unfoldable pub update_all : List ℕ → Option Trie → Option Trie
  unfolding update_branch_with_new_message
  update_all ms none = none
  update_all [] (some t) = some t
  update_all (m ∷ ms) (some t) =
      update_all ms
        (put_branches t (update_branch_with_new_message keccak2 t.branches t.next_message_nonce m))

  -- The proofs of the messages whose nonces run from `index` on.
  unfoldable pub all_proofs : ℕ → ℕ → List ℕ → Cache → List (List ℕ)
  unfolding retrieve encode_merkle_proof_to_bytes
  all_proofs height index [] cache = []
  all_proofs height index (m ∷ ms) cache =
      encode_merkle_proof_to_bytes (retrieve height 0 index cache)
      ∷ all_proofs height (add64 index 1) ms cache

  abbrev rounds : Option ℕ → ℕ
  rounds none = 0
  rounds (some h) = suc h

  -- The cache before it is built up.
  unfoldable pub cached : Trie → List ℕ → Cache
  unfolding cache_branches cache_leaves
  cached t ms = cache_leaves t.next_message_nonce ms (
      if t.next_message_nonce == 0
      then (λ h i. 0)
      else cache_branches (rounds t.height) 0 t.next_message_nonce t.branches (λ h i. 0))

  abbrev pub height_of : Trie → ℕ
  height_of t = elim t.height [ none ↦ 0 | some h ↦ h ]

  abbrev pub append_end : ℕ → List ℕ → Option Cache → Option Trie → Option (List (List ℕ) × Trie)
  append_end index ms (some cache) (some t) = some (all_proofs (height_of t) index ms cache, t)
  append_end index ms _ _ = none

  -- AppendMessages
  unfoldable pub append_messages : Trie → List ℕ → Option (List (List ℕ) × Trie)
  unfolding cached build update_all all_proofs
  append_messages t [] = some ([], t)
  append_messages t (m ∷ ms) =
      append_end t.next_message_nonce (m ∷ ms)
        (build (max_height - 1) 0 t.next_message_nonce
          (sub64 (add64 t.next_message_nonce (length (m ∷ ms))) 1) (cached t (m ∷ ms)))
        (update_all (m ∷ ms) (some t))

  -- The loop of recoverBranchFromProof, with `room` of the 64 entries from `height` on. Entries
  -- behind the root stay 0. A proof that is too short makes the code panic.
  unfoldable pub recover_from : ℕ → ℕ → Hashes → List ℕ → ℕ → ℕ → Option Hashes
  recover_from zero height branches proof index root = none
  recover_from (suc room) height branches [] index root =
      if index == 0 then some (set_at height root branches) else none
  recover_from (suc room) height branches (p ∷ proof) index root = elim (index == 0) [
    | true ↦ some (set_at height root branches)
    | false ↦ elim (index % 2 == 0) [
      | true ↦
          recover_from room (suc height) (set_at height root branches) proof (index / 2)
            (keccak2 root p)
      | false ↦
          recover_from room (suc height) (set_at height p branches) proof (index / 2)
            (keccak2 p root)
    ]
  ]

  -- recoverBranchFromProof
  unfoldable pub recover_branch_from_proof : List ℕ → ℕ → ℕ → Option Hashes
  unfolding recover_from
  recover_branch_from_proof proof index msg_hash = recover_from 64 0 (λ k. 0) proof index msg_hash

  -- Initialize
  unfoldable pub initialize : ℕ → ℕ → List ℕ → Option Trie
  unfolding recover_branch_from_proof decode_bytes_to_merkle_proof
  initialize nonce msg_hash bytes =
      let proof = decode_bytes_to_merkle_proof bytes in
      elim (recover_branch_from_proof proof nonce msg_hash) [
        | none ↦ none
        | some branches ↦ some (record {
          next_message_nonce = add64 nonce 1;
          height = some (length proof);
          branches = branches;
        })
      ]

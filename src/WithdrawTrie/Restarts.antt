-- ===== src/WithdrawTrie/Restarts.antt =====
-- A trie that is restored and then extended: Initialize, AppendMessages and MessageRoot of
-- bridge-history-api/internal/utils/withdraw_trie.go in a row, as updateL2WithdrawMessageInfos of
-- bridge-history-api/internal/logic/event_update.go calls them.
use scroll.Common.{ℕ, ◌+◌, ◌^◌, ◌<◌, ◌≤◌, ◌≡◌, some, List, [], ◌∷◌, ◌++◌, length, All}
use scroll.WithdrawTrie.{
  Trie, initialize, append_messages, message_root, encode_merkle_proof_to_bytes,
}
use scroll.WithdrawTrie.Nodes.{leaves, IsDepthOf}
use scroll.WithdrawTrie.Roots.{IsRootOf, message_root-IsRootOf}
use scroll.WithdrawTrie.Proofs.{siblings}
use scroll.WithdrawTrie.Bytes.{IsHash}
use scroll.WithdrawTrie.Messages.{append_messages-IsAppended}
use scroll.WithdrawTrie.Restores.{initialize-IsTrieOf}

All-left : (xs ys : List ℕ) → All IsHash (xs ++ ys) → All IsHash xs
All-left [] ys a = tt
All-left (x ∷ xs) ys a = (a.0, All-left xs ys a.1)

-- Let the hash of two hashes and every message fit 32 bytes, and let the old messages `ms ++ m ∷ []`
-- and the new ones be at most 2^39. If the siblings of the last old message in the tree of the old
-- ones, of at most 63 levels above its leaves, are its stored proof, then Initialize and
-- AppendMessages succeed one after the other, and MessageRoot is the Merkle root of all the
-- messages, old and new.
pub message_root-restarted :
    (keccak2 : ℕ → ℕ → ℕ) (ms : List ℕ) (m depth : ℕ) (new : List ℕ)
    → ((a b : ℕ) → IsHash (keccak2 a b))
    → All IsHash ((ms ++ m ∷ []) ++ new)
    → length (ms ++ m ∷ []) + length new ≤ 2 ^ 39
    → length ms < 2 ^ 63
    → depth ≤ 63
    → IsDepthOf (length ms) depth
    → (t : Trie) × (r : List (List ℕ) × Trie) × (initialize keccak2 (length ms) m (
          encode_merkle_proof_to_bytes (siblings keccak2 depth (leaves (ms ++ m ∷ [])) (length ms)))
        ≡ some t)
      × (append_messages keccak2 t new ≡ some r)
      × IsRootOf keccak2 ((ms ++ m ∷ []) ++ new) (message_root r.1)
message_root-restarted keccak2 ms m depth new sized fits small few low d =
    let old = ms ++ m ∷ [] in
    let (t, restored, k) =
      initialize-IsTrieOf keccak2 ms m depth sized (All-left old new fits) few low d in
    let (r, appended, k', proved) =
      append_messages-IsAppended keccak2 old new t sized fits k small in
    (t, r, restored, appended, message_root-IsRootOf keccak2 (old ++ new) r.1 k')

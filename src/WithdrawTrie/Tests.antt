-- ===== src/WithdrawTrie/Tests.antt =====
-- Concrete runs of the withdraw trie.
use scroll.Common.{ℕ, ◌+◌, ◌*◌, ◌%◌, ◌≡◌, refl, Option, some, none, List, [], ◌∷◌, arith, All, inr}
use scroll.WithdrawTrie.{
  Trie, new_withdraw_trie, append_messages, message_root, initialize, encode_merkle_proof_to_bytes,
}
use scroll.WithdrawTrie.Nodes.{leaves, IsDepthOf}
use scroll.WithdrawTrie.Roots.{IsTrieOf, IsRootOf, new-IsTrieOf}
use scroll.WithdrawTrie.Proofs.{siblings}
use scroll.WithdrawTrie.Bytes.{IsHash}
use scroll.WithdrawTrie.Messages.{IsAppended, append_messages-IsAppended}
use scroll.WithdrawTrie.Restores.{initialize-IsTrieOf}
use scroll.WithdrawTrie.Restarts.{message_root-restarted}

-- A stand-in for the hash of two hashes.
abbrev mix : ℕ → ℕ → ℕ
mix a b = (3 * a + 5 * b + 1) % 256

abbrev root_of : Option (List (List ℕ) × Trie) → ℕ
root_of none = 0
root_of (some r) = message_root r.1

three : root_of (append_messages mix new_withdraw_trie (7 ∷ 8 ∷ 9 ∷ [])) ≡ mix 62 28
unfolding append_messages message_root
three = refl

mix-IsHash : (a b : ℕ) → IsHash (mix a b)
mix-IsHash a b = omega arith

messages-IsHash : All IsHash (7 ∷ 8 ∷ 9 ∷ [])
messages-IsHash = (omega arith, (omega arith, (omega arith, tt)))

append_messages-IsAppended_example : IsAppended mix [] (7 ∷ 8 ∷ 9 ∷ []) new_withdraw_trie
append_messages-IsAppended_example =
    append_messages-IsAppended mix [] (7 ∷ 8 ∷ 9 ∷ []) new_withdraw_trie mix-IsHash messages-IsHash
      (new-IsTrieOf mix) (omega arith)

two-IsDepthOf : IsDepthOf 2 2
two-IsDepthOf = record { fits = omega arith; least = inr (omega arith) }

initialize-IsTrieOf_example :
    (t : Trie) × (initialize mix 2 9
        (encode_merkle_proof_to_bytes (siblings mix 2 (leaves (7 ∷ 8 ∷ 9 ∷ [])) 2))
      ≡ some t)
    × IsTrieOf mix (7 ∷ 8 ∷ 9 ∷ []) t
initialize-IsTrieOf_example =
    initialize-IsTrieOf mix (7 ∷ 8 ∷ []) 9 2 mix-IsHash messages-IsHash (omega arith) (omega arith)
      two-IsDepthOf

message_root-restarted_example :
    (t : Trie) × (r : List (List ℕ) × Trie) × (initialize mix 2 9
        (encode_merkle_proof_to_bytes (siblings mix 2 (leaves (7 ∷ 8 ∷ 9 ∷ [])) 2))
      ≡ some t)
    × (append_messages mix t (5 ∷ 6 ∷ []) ≡ some r)
    × IsRootOf mix (7 ∷ 8 ∷ 9 ∷ 5 ∷ 6 ∷ []) (message_root r.1)
message_root-restarted_example =
    message_root-restarted mix (7 ∷ 8 ∷ []) 9 2 (5 ∷ 6 ∷ []) mix-IsHash
      (omega arith, (omega arith, (omega arith, (omega arith, (omega arith, tt))))) (omega arith)
      (omega arith) (omega arith) two-IsDepthOf

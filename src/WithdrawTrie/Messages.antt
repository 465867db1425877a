-- ===== src/WithdrawTrie/Messages.antt =====
-- What AppendMessages returns:
-- bridge-history-api/internal/utils/withdraw_trie.go.
use scroll.Common.{
  ℕ, zero, suc, ◌+◌, ◌*◌, ◌-◌, ◌/◌, ◌^◌, ◌<◌, ◌≤◌, ◌≡◌, refl, sym, ap, ◌∙◌, subst, Option, some,
  none, List, [], ◌∷◌, ◌++◌, length, length-append, All, arith, add64, sub64, append-nil,
}
use scroll.WithdrawTrie.{
  Hashes, Trie, Cache, flip, retrieve, build, all_proofs, append_end, append_messages, height_of,
  cached, encode_merkle_proof_to_bytes, decode_bytes_to_merkle_proof, message_root,
}
use scroll.WithdrawTrie.Nodes.{Level, leaves, up, node, IsDepthOf}
use scroll.WithdrawTrie.Roots.{IsTrieOf, IsHeightOf, update_all-IsTrieOf}
use scroll.WithdrawTrie.Proofs.{siblings, climb, climb-siblings}
use scroll.WithdrawTrie.Bytes.{IsHash, decode-encode_proof}
use scroll.WithdrawTrie.Appends.{built, leaves-append}

pub leaves-IsHash : (hs : List ℕ) → All IsHash hs → (i : ℕ) → IsHash (leaves hs i)
leaves-IsHash [] a i = omega arith
leaves-IsHash (h ∷ hs) a zero = a.0
leaves-IsHash (h ∷ hs) a (suc i) = leaves-IsHash hs a.1 i

module _ (keccak2 : ℕ → ℕ → ℕ) where
  -- Each proof leads from its message to the root.
  abbrev pub AllProved : ℕ → List ℕ → List (List ℕ) → ℕ → Type 0
  AllProved index [] [] root = Unit
  AllProved index [] (p ∷ ps) root = ⊥
  AllProved index (m ∷ ms) [] root = ⊥
  AllProved index (m ∷ ms) (p ∷ ps) root =
      (climb keccak2 index m (decode_bytes_to_merkle_proof p) ≡ root)
      × AllProved (index + 1) ms ps root

  pub siblings-IsHash :
      (depth : ℕ) (level : Level) (index : ℕ)
      → ((a b : ℕ) → IsHash (keccak2 a b))
      → ((i : ℕ) → IsHash (level i))
      → All IsHash (siblings keccak2 depth level index)
  siblings-IsHash zero level index sized fits = tt
  siblings-IsHash (suc depth) level index sized fits = (
    fits (flip index),
    siblings-IsHash depth (up keccak2 level) (index / 2) sized
        (λ i. sized (level (2 * i)) (level (2 * i + 1))),
  )

  -- The proofs of the last positions of the tree.
  all_proofs-AllProved :
      (depth index last : ℕ) (ms : List ℕ) (level : Level) (c : Cache)
      → ((a b : ℕ) → IsHash (keccak2 a b))
      → ((i : ℕ) → IsHash (level i))
      → IsDepthOf last depth
      → last < 2 ^ 40
      → index + length ms ≡ last + 1
      → ((i : ℕ) → level (index + i) ≡ leaves ms i)
      → ((j : ℕ) → index ≤ j → j ≤ last → retrieve depth 0 j c ≡ siblings keccak2 depth level j)
      → AllProved index ms (all_proofs keccak2 depth index ms c) (node keccak2 depth level 0)
  unfolding all_proofs
  all_proofs-AllProved depth index last [] level c sized fits d small e same held = tt
  all_proofs-AllProved depth index last (m ∷ ms) level c sized fits d small e same held =
      let here : index + 0 ≡ index = omega arith in
      let mine : m ≡ level index = sym (same 0) ∙ ap level here in
      let path = siblings keccak2 depth level index in
      let next : add64 index 1 ≡ index + 1 = omega (arith, e, small) in
      (
        ap
              (λ p.
                climb keccak2 index m
                  (decode_bytes_to_merkle_proof (encode_merkle_proof_to_bytes p)))
              (held index (omega arith) (omega (arith, e)))
            ∙ ap (climb keccak2 index m)
                (decode-encode_proof path (siblings-IsHash depth level index sized fits))
            ∙ ap (λ h. climb keccak2 index h path) mine
            ∙ climb-siblings keccak2 depth level index (omega (arith, e, d.fits)),
        subst
            (λ n.
              AllProved (index + 1) ms (all_proofs keccak2 depth n ms c)
                (node keccak2 depth level 0))
            (sym next)
            (all_proofs-AllProved depth (index + 1) last ms level c sized fits d small
              (omega (arith, e)) (λ i. ap level (omega arith) ∙ same (suc i))
              (λ j low high. held j (omega arith) high)),
      )

  -- The height of a trie with messages.
  height-IsDepthOf :
      (l : List ℕ) (t : Trie)
      → 0 < length l
      → IsHeightOf keccak2 l t.branches t.height
      → IsDepthOf (length l - 1) (height_of keccak2 t)
        × (message_root t ≡ node keccak2 (height_of keccak2 t) (leaves l) 0)
  unfolding message_root
  height-IsDepthOf l t pos k = go l t.branches t.height pos k
    where
      go :
          (xs : List ℕ) (b : Hashes) (h : Option ℕ)
          → 0 < length xs
          → IsHeightOf keccak2 xs b h
          → IsDepthOf (length xs - 1) (elim h [ none ↦ 0 | some n ↦ n ])
            × (elim h [ none ↦ 0 | some n ↦ b n ]
                ≡ node keccak2 (elim h [ none ↦ 0 | some n ↦ n ]) (leaves xs) 0)
      go [] b h pos k = absurd (omega arith)
      go (m ∷ xs) b none pos k = absurd k
      go (m ∷ xs) b (some n) pos k = (subst (λ i. IsDepthOf i n) (omega arith) k.0, k.1)

  -- What an append does: the trie holds the messages behind the old ones, and each of their
  -- proofs leads to the new root.
  abbrev pub IsAppended : List ℕ → List ℕ → Trie → Type 0
  IsAppended old ms t =
      (r : List (List ℕ) × Trie) × (append_messages keccak2 t ms ≡ some r)
      × IsTrieOf keccak2 (old ++ ms) r.1
      × AllProved (length old) ms r.0 (message_root r.1)

  append_cons :
      (old ms : List ℕ) (m : ℕ) (t : Trie)
      → ((a b : ℕ) → IsHash (keccak2 a b))
      → All IsHash (old ++ m ∷ ms)
      → IsTrieOf keccak2 old t
      → length old + length (m ∷ ms) ≤ 2 ^ 39
      → IsAppended old (m ∷ ms) t
  unfolding append_messages
  append_cons old ms m t sized fits k small =
      let added = m ∷ ms in
      let level = leaves (old ++ added) in
      let last = length old + length added - 1 in
      let (c, build_run, b) = built keccak2 old added t k small (omega arith) in
      let (t', run, k') = update_all-IsTrieOf keccak2 old added t small k in
      let total = length-append old added in
      let (depth, root) = height-IsDepthOf (old ++ added) t' (omega (arith, total)) k'.height in
      let final : length (old ++ added) - 1 ≡ last = omega (arith, total) in
      let depth' = subst (λ n. IsDepthOf n (height_of keccak2 t')) final depth in
      let last_index : sub64 (add64 t.next_message_nonce (length added)) 1 ≡ last =
        omega (arith, k.nonce, small) in
      let build_run' : build keccak2 39 0 t.next_message_nonce
            (sub64 (add64 t.next_message_nonce (length added)) 1) (cached keccak2 t added)
          ≡ some c =
        (λ i. build keccak2 39 0 (k.nonce i) (last_index i) (cached keccak2 t added)) ∙ build_run in
      (
        (all_proofs keccak2 (height_of keccak2 t') t.next_message_nonce added c, t'),
        (λ i. append_end keccak2 t.next_message_nonce added (build_run' i) (run i)),
        k',
        subst
            (λ (p : ℕ × ℕ).
              AllProved (length old) added (all_proofs keccak2 (height_of keccak2 t') p.0 added c)
                p.1)
            (λ i. (sym k.nonce i, sym root i))
            (all_proofs-AllProved (height_of keccak2 t') (length old) last added level c sized
              (leaves-IsHash (old ++ added) fits) depth' (omega arith) (omega arith)
              (leaves-append old added)
              (λ j low high. b.proofs (height_of keccak2 t') j depth' low high)),
      )

  -- Let the hash of two hashes and every message fit 32 bytes, and let a trie hold some messages.
  -- If with the new ones they are at most 2^39, then AppendMessages succeeds, leaves a trie that
  -- holds the old messages and behind them the new ones, and returns one proof for each new
  -- message, with which a verifier comes from the message and its nonce to the new root.
  pub append_messages-IsAppended :
      (old new : List ℕ) (t : Trie)
      → ((a b : ℕ) → IsHash (keccak2 a b))
      → All IsHash (old ++ new)
      → IsTrieOf keccak2 old t
      → length old + length new ≤ 2 ^ 39
      → IsAppended old new t
  unfolding append_messages
  append_messages-IsAppended old [] t sized fits k small =
      (([], t), refl, subst (λ l. IsTrieOf keccak2 l t) (sym (append-nil old)) k, tt)
  append_messages-IsAppended old (m ∷ new) t sized fits k small =
      append_cons old new m t sized fits k small

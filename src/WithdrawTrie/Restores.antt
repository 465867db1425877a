-- ===== src/WithdrawTrie/Restores.antt =====
-- Initialize restores a trie from the proof of its last message:
-- bridge-history-api/internal/utils/withdraw_trie.go.
use native.Mathlib.Decide.{ℕ_discrete}
use scroll.Common.{
  ℕ, zero, suc, ◌+◌, ◌*◌, ◌-◌, ◌/◌, ◌%◌, ◌^◌, ◌<◌, ◌≤◌, ◌≡◌, refl, sym, ap, ◌∙◌, subst, inl, inr,
  Option, some, none, List, [], ◌∷◌, ◌++◌, length, length-append, All, arith, ==_refl, add64,
}
use scroll.WithdrawTrie.{
  Hashes, Trie, set_at, flip, recover_from, recover_branch_from_proof, initialize,
  encode_merkle_proof_to_bytes,
}
use scroll.WithdrawTrie.Nodes.{Level, leaves, up, IsDepthOf}
use scroll.WithdrawTrie.Branches.{
  HasSiblings, IsUpdated, IsUpdated-zero, IsUpdated-left, IsUpdated-right,
}
use scroll.WithdrawTrie.Roots.{IsTrieOf, IsHeightOf-snoc, get_or-at}
use scroll.WithdrawTrie.Proofs.{siblings, IsDepthOf-half}
use scroll.WithdrawTrie.Bytes.{IsHash, decode-encode_proof}
use scroll.WithdrawTrie.Messages.{siblings-IsHash, leaves-IsHash}

module _ (keccak2 : ℕ → ℕ → ℕ) where
  IsUpdated-before :
      (room height index : ℕ) (level : Level) (a b after : Hashes) (proof : List ℕ)
      → ((k : ℕ) → k < height → a k ≡ b k)
      → IsUpdated keccak2 room height index level a after proof
      → IsUpdated keccak2 room height index level b after proof
  IsUpdated-before room height index level a b after proof e u = record {
    stay = u.stay;
    next = u.next;
    below = λ k small. u.below k small ∙ e k small;
    root = u.root;
    depth = u.depth;
  }

  recover-left :
      (room height index p root : ℕ) (branches : Hashes) (proof : List ℕ)
      → 0 < index
      → index % 2 ≡ 0
      → recover_from keccak2 (suc room) height branches (p ∷ proof) index root
        ≡ recover_from keccak2 room
            (suc height)
            (set_at height root branches)
            proof
            (index / 2)
            (keccak2 root p)
  unfolding recover_from
  recover-left room height index p root branches proof pos even = ground arith

  recover-right :
      (room height index p root : ℕ) (branches : Hashes) (proof : List ℕ)
      → index % 2 ≡ 1
      → recover_from keccak2 (suc room) height branches (p ∷ proof) index root
        ≡ recover_from keccak2 room
            (suc height)
            (set_at height p branches)
            proof
            (index / 2)
            (keccak2 p root)
  unfolding recover_from
  recover-right room height index p root branches proof odd = ground arith

  recover_from-IsUpdated :
      (room depth height index : ℕ) (level : Level) (branches : Hashes) (root : ℕ)
      → depth ≤ room
      → IsDepthOf index depth
      → root ≡ level index
      → (r : Hashes) × (recover_from keccak2
            (suc room)
            height
            branches
            (siblings keccak2 depth level index)
            index
            root
          ≡ some r)
        × IsUpdated keccak2
            (suc room)
            height
            index
            level
            branches
            r
            (siblings keccak2 depth level index)
  unfolding recover_from
  recover_from-IsUpdated room zero height index level branches root fits d e =
      let one : 2 ^ 0 ≡ 1 = refl in
      let z : index ≡ 0 = omega (arith, one, d.fits) in
      (
        set_at height root branches,
        ap (λ i. recover_from keccak2 (suc room) height branches [] i root) z,
        subst
            (λ i.
              IsUpdated keccak2 (suc room) height i level branches (set_at height root branches) [])
            (sym z) (IsUpdated-zero keccak2 room height level branches root (e ∙ ap level z)),
      )
  recover_from-IsUpdated zero (suc depth) height index level branches root fits d e =
      absurd (omega arith)
  recover_from-IsUpdated (suc room) (suc depth) height index level branches root fits d e =
      let pos : 0 < index = elim d.least [
        | inl n ↦ absurd (omega (arith, n))
        | inr low ↦ omega (arith, low)
      ] in
      let (d1, same, half) = IsDepthOf-half keccak2 index (suc depth) pos d in
      let lower : IsDepthOf (index / 2) depth =
        subst (IsDepthOf (index / 2)) (omega (arith, same)) half in
      let path = siblings keccak2 depth (up keccak2 level) (index / 2) in
      elim (ℕ_discrete (index % 2) 0) [
        | yes even ↦
            let t : flip index ≡ index + 1 = ground arith in
            let left : index ≡ 2 * (index / 2) = omega arith in
            let right : flip index ≡ 2 * (index / 2) + 1 = omega (arith, t) in
            let (r, run, u) =
              recover_from-IsUpdated room depth (suc height) (index / 2) (up keccak2 level)
                (set_at height root branches) (keccak2 root (level (flip index))) (omega arith)
                lower (cc (e, ap level left, ap level right)) in
            (
              r,
              recover-left (suc room) height index (level (flip index)) root branches path pos even
                  ∙ run,
              IsUpdated-left keccak2 (suc room) height index level branches r path root
                  (level (flip index)) pos even e u,
            )
        | no not_odd ↦
            let odd : index % 2 ≡ 1 = omega arith in
            let t : flip index ≡ index - 1 = ground arith in
            let left : flip index ≡ 2 * (index / 2) = omega (arith, t) in
            let right : index ≡ 2 * (index / 2) + 1 = omega arith in
            let p = level (flip index) in
            let (r, run, u) =
              recover_from-IsUpdated room depth (suc height) (index / 2) (up keccak2 level)
                (set_at height p branches) (keccak2 p root) (omega arith) lower
                (cc (e, ap level left, ap level right)) in
            (
              r,
              recover-right (suc room) height index p root branches path odd ∙ run,
              IsUpdated-before (suc (suc room)) height index level (set_at height p branches)
                  branches r (p ∷ path) (λ k small. set_at-below p k small)
                  (IsUpdated-right keccak2 (suc room) height index level (set_at height p branches)
                    r path p odd (set_at-here p ∙ ap level t) u),
            )
      ]
    where
      set_at-here : (p : ℕ) → set_at height p branches height ≡ p
      set_at-here p = rw (==_refl height) refl

      set_at-below : (p k : ℕ) → k < height → set_at height p branches k ≡ branches k
      set_at-below p k small = ground arith

  -- Fewer entries need less.
  HasSiblings-fewer :
      (room more height count : ℕ) (level : Level) (branches : Hashes)
      → room ≤ more
      → HasSiblings keccak2 more height count level branches
      → HasSiblings keccak2 room height count level branches
  HasSiblings-fewer zero more height count level branches le s = tt
  HasSiblings-fewer (suc room) zero height count level branches le s = absurd (omega arith)
  HasSiblings-fewer (suc room) (suc more) height count level branches le s = (
    s.0,
    HasSiblings-fewer room more (suc height) (count / 2) (up keccak2 level) branches (omega arith)
        s.1,
  )

  length-siblings :
      (depth : ℕ) (level : Level) (index : ℕ) → length (siblings keccak2 depth level index) ≡ depth
  length-siblings zero level index = refl
  length-siblings (suc depth) level index =
      ap suc (length-siblings depth (up keccak2 level) (index / 2))

  -- Let the hash of two hashes and every message fit 32 bytes, take at most 2^63 messages whose
  -- tree has at most 63 levels above its leaves, and take the siblings of the last message in it
  -- as its proof, in bytes. From the last message, its nonce and the proof, Initialize makes a
  -- trie that holds all the messages.
  pub initialize-IsTrieOf :
      (ms : List ℕ) (m depth : ℕ)
      → ((a b : ℕ) → IsHash (keccak2 a b))
      → All IsHash (ms ++ m ∷ [])
      → length ms < 2 ^ 63
      → depth ≤ 63
      → IsDepthOf (length ms) depth
      → (t : Trie) × (initialize keccak2 (length ms) m (
            encode_merkle_proof_to_bytes
              (siblings keccak2 depth (leaves (ms ++ m ∷ [])) (length ms)))
          ≡ some t)
        × IsTrieOf keccak2 (ms ++ m ∷ []) t
  unfolding initialize recover_branch_from_proof
  initialize-IsTrieOf ms m depth sized fits few small d =
      let level = leaves (ms ++ m ∷ []) in
      let path = siblings keccak2 depth level (length ms) in
      let read = decode-encode_proof path (
        siblings-IsHash keccak2 depth level (length ms) sized
          (leaves-IsHash (ms ++ m ∷ []) fits)) in
      let (r, run, u) =
        recover_from-IsUpdated 63 depth 0 (length ms) level (λ k. 0) m small d
          (sym (get_or-at ms [] m)) in
      let longer : length ms + 1 ≡ length (ms ++ m ∷ []) =
        omega (arith, length-append ms (m ∷ [])) in
      let deep = length-siblings depth level (length ms) in
      (
        record {
          next_message_nonce = add64 (length ms) 1;
          height = some (length path);
          branches = r;
        },
        ap (λ p. made p (recover_from keccak2 64 0 (λ k. 0) p (length ms) m)) read
            ∙ ap (made path) run,
        record {
          nonce = omega (arith, longer, few);
          siblings =
              HasSiblings-fewer 40 64 0 (length (ms ++ m ∷ [])) level r (omega arith)
                (subst (λ n. HasSiblings keccak2 64 0 n level r) longer u.next);
          height =
              IsHeightOf-snoc keccak2 ms m r (length path) u.depth (ap r (omega arith) ∙ u.root);
        },
      )
    where
      made : List ℕ → Option Hashes → Option Trie
      made p b = elim b [
        | none ↦ none
        | some branches ↦ some (record {
          next_message_nonce = add64 (length ms) 1;
          height = some (length p);
          branches = branches;
        })
      ]

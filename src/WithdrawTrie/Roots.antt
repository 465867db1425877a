-- ===== src/WithdrawTrie/Roots.antt =====
-- The trie is the Merkle tree of the messages appended to it:
-- bridge-history-api/internal/utils/withdraw_trie.go.

use scroll.Common.{
  ℕ, zero, suc, ◌+◌, ◌^◌, ◌<◌, ◌≤◌, ◌≡◌, refl, sym, ap, ◌∙◌, subst, Option, some, none, List, [],
  ◌∷◌, ◌++◌, append_assoc, append-nil, length, length-append, arith, add64,
}
use scroll.WithdrawTrie.{
  Hashes, Trie, zeroes, update_from, update_branch_with_new_message, new_withdraw_trie,
  message_root, put_branches, update_all, max_height,
}
use scroll.WithdrawTrie.Nodes.{leaves, node, IsDepthOf}
use scroll.WithdrawTrie.Branches.{HasSiblings, HasSiblings-zero, IsLast, update_from-Updates}

pub get_or-below : (xs ys : List ℕ) (i : ℕ) → i < length xs → leaves (xs ++ ys) i ≡ leaves xs i
get_or-below [] ys i small = absurd (omega arith)
get_or-below (x ∷ xs) ys zero small = refl
get_or-below (x ∷ xs) ys (suc i) small = get_or-below xs ys i (omega arith)

pub get_or-at : (xs ys : List ℕ) (y : ℕ) → leaves (xs ++ y ∷ ys) (length xs) ≡ y
get_or-at [] ys y = refl
get_or-at (x ∷ xs) ys y = get_or-at xs ys y

pub get_or-above : (xs : List ℕ) (i : ℕ) → length xs ≤ i → leaves xs i ≡ 0
get_or-above [] i big = refl
get_or-above (x ∷ xs) zero big = absurd (omega arith)
get_or-above (x ∷ xs) (suc i) big = get_or-above xs i (omega arith)

module _ (keccak2 : ℕ → ℕ → ℕ) where
  -- The root of the least tree that has room for the messages, the missing ones as 0.
  abbrev pub IsRootOf : List ℕ → ℕ → Type 0
  IsRootOf [] root = root ≡ 0
  IsRootOf (m ∷ ms) root =
      (depth : ℕ) × IsDepthOf (length ms) depth × (root ≡ node keccak2 depth (leaves (m ∷ ms)) 0)

  -- The height that the trie has after the messages.
  abbrev pub IsHeightOf : List ℕ → Hashes → Option ℕ → Type 0
  IsHeightOf [] branches none = Unit
  IsHeightOf [] branches (some h) = ⊥
  IsHeightOf (m ∷ ms) branches none = ⊥
  IsHeightOf (m ∷ ms) branches (some h) =
      IsDepthOf (length ms) h × (branches h ≡ node keccak2 h (leaves (m ∷ ms)) 0)

  -- The trie that holds the messages.
  pub record IsTrieOf (messages : List ℕ) (t : Trie) : Type 0 where
    pub nonce : t.next_message_nonce ≡ length messages
    pub siblings : HasSiblings keccak2 max_height 0 (length messages) (leaves messages) t.branches
    pub height : IsHeightOf messages t.branches t.height

  pub new-IsTrieOf : IsTrieOf [] new_withdraw_trie
  new-IsTrieOf = record {
    nonce = refl;
    siblings = HasSiblings-zero keccak2 max_height 0 (leaves []) (λ k. 0);
    height = tt;
  }

  IsLast-leaves :
      (ms : List ℕ) (m : ℕ) → IsLast keccak2 0 (length ms) (leaves ms) (leaves (ms ++ m ∷ []))
  unfolding zeroes
  IsLast-leaves ms m = record {
    same = λ i small. get_or-below ms (m ∷ []) i small;
    empty = λ i big. get_or-above (ms ++ m ∷ []) i (omega (arith, big, length-append ms (m ∷ [])));
  }

  pub IsHeightOf-snoc :
      (ms : List ℕ) (m : ℕ) (branches : Hashes) (h : ℕ)
      → IsDepthOf (length ms) h
      → branches h ≡ node keccak2 h (leaves (ms ++ m ∷ [])) 0
      → IsHeightOf (ms ++ m ∷ []) branches (some h)
  IsHeightOf-snoc [] m branches h d e = (d, e)
  IsHeightOf-snoc (x ∷ ms) m branches h d e =
      (subst (λ k. IsDepthOf k h) (omega (arith, length-append ms (m ∷ []))) d, e)

  -- One message is added where the array has room.
  update-IsTrieOf :
      (ms : List ℕ) (m : ℕ) (t : Trie)
      → length ms < 2 ^ 39
      → IsTrieOf ms t
      → (t' : Trie) × (put_branches keccak2 t
            (update_branch_with_new_message keccak2 t.branches t.next_message_nonce m)
          ≡ some t')
        × IsTrieOf (ms ++ m ∷ []) t'
  unfolding update_branch_with_new_message
  update-IsTrieOf ms m t small k =
      let level = leaves (ms ++ m ∷ []) in
      let (r, run, u) =
        update_from-Updates keccak2 39 0 (length ms) (leaves ms) level t.branches m small k.siblings
          (IsLast-leaves ms m) (sym (get_or-at ms [] m)) in
      let t' : Trie = record {
        next_message_nonce = add64 t.next_message_nonce 1;
        height = some (length r.0);
        branches = r.1;
      } in
      let longer : length ms + 1 ≡ length (ms ++ m ∷ []) =
        omega (arith, length-append ms (m ∷ [])) in
      (
        t',
        ap (λ n. put_branches keccak2 t (update_from keccak2 40 0 t.branches n m)) k.nonce
            ∙ ap (put_branches keccak2 t) run,
        record {
          nonce = omega (arith, k.nonce, longer, small);
          siblings = subst (λ n. HasSiblings keccak2 max_height 0 n level r.1) longer u.next;
          height = IsHeightOf-snoc ms m r.1 (length r.0) u.depth (ap r.1 (omega arith) ∙ u.root);
        },
      )

  pub update_all-IsTrieOf :
      (ms new : List ℕ) (t : Trie)
      → length ms + length new ≤ 2 ^ 39
      → IsTrieOf ms t
      → (t' : Trie) × (update_all keccak2 new (some t) ≡ some t') × IsTrieOf (ms ++ new) t'
  unfolding update_all
  update_all-IsTrieOf ms [] t small k = (t, refl, subst (λ l. IsTrieOf l t) (sym (append-nil ms)) k)
  update_all-IsTrieOf ms (m ∷ new) t small k =
      let (t1, run, k1) = update-IsTrieOf ms m t (omega arith) k in
      let (t2, rest, k2) =
        update_all-IsTrieOf (ms ++ m ∷ []) new t1 (omega (arith, small, length-append ms (m ∷ [])))
          k1 in
      (
        t2,
        ap (update_all keccak2 new) run ∙ rest,
        subst (λ l. IsTrieOf l t2) (append_assoc ms (m ∷ []) new) k2,
      )

  -- The root of the trie that holds the messages is their Merkle root.
  pub message_root-IsRootOf :
      (ms : List ℕ) (t : Trie) → IsTrieOf ms t → IsRootOf ms (message_root t)
  unfolding message_root
  message_root-IsRootOf ms t k = go ms t.branches t.height k.height
    where
      go :
          (l : List ℕ) (b : Hashes) (h : Option ℕ)
          → IsHeightOf l b h
          → IsRootOf l (elim h [ none ↦ 0 | some i ↦ b i ])
      go [] b none k = refl
      go [] b (some h) k = absurd k
      go (m ∷ l) b none k = absurd k
      go (m ∷ l) b (some h) k = (h, k.0, k.1)

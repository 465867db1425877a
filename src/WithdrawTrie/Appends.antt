-- ===== src/WithdrawTrie/Appends.antt =====
-- AppendMessages keeps the trie the Merkle tree of its messages and returns their proofs:
-- bridge-history-api/internal/utils/withdraw_trie.go.
use native.Mathlib.Decide.{ℕ_discrete}
use native.Mathlib.Nat.{pow-succ'}
use scroll.Common.{
  ℕ, zero, suc, ◌+◌, ◌*◌, ◌-◌, ◌/◌, ◌%◌, ◌^◌, ◌<◌, ◌≤◌, ◌≡◌, ◌≢◌, ◌⊎◌, refl, sym, ap, ◌∙◌, subst,
  inl, inr, true, false, Option, some, none, List, [], ◌∷◌, ◌++◌, length, length-append, arith,
  ◌==◌, ==_iff, if◌then◌else◌, if_both, add64,
}
use scroll.WithdrawTrie.{
  Hashes, Trie, Cache, put_cache, flip, zeroes, cache_branches, cache_leaves, cached, rounds, build,
}
use scroll.WithdrawTrie.Nodes.{Level, leaves, up}
use scroll.WithdrawTrie.Branches.{HasSiblings}
use scroll.WithdrawTrie.Cached.{IsHeld, put_cache-here, put_cache-other}
use scroll.WithdrawTrie.Roots.{IsTrieOf, IsHeightOf, get_or-below, get_or-above}
use scroll.WithdrawTrie.Proofs.{HasCached, HasCached-ext, IsBuilt, build-IsBuilt}

cache_branches-below :
    (n h index : ℕ) (branches : Hashes) (cache : Cache) (k j : ℕ)
    → k < h
    → cache_branches n h index branches cache k j ≡ cache k j
unfolding cache_branches
cache_branches-below zero h index branches cache k j low = refl
cache_branches-below (suc n) h index branches cache k j low =
    cache_branches-below n (suc h) (index / 2) branches _ k j (omega arith)
    ∙ if_both (λ (c : Cache). c k j ≡ cache k j) (index % 2 == 1)
        (λ _. put_cache-other h (flip index) (branches h) cache k j (inl (omega arith))) (λ _. refl)

cache_leaves-other :
    (index : ℕ) (ms : List ℕ) (cache : Cache) (k j : ℕ)
    → index + length ms < 2 ^ 64
    → (k ≢ 0) ⊎ (j < index)
    → cache_leaves index ms cache k j ≡ cache k j
unfolding cache_leaves
cache_leaves-other index [] cache k j small o = refl
cache_leaves-other index (m ∷ ms) cache k j small o =
    cache_leaves-other (add64 index 1) ms (put_cache 0 index m cache) k j (omega arith)
      (elim o [ inl n ↦ inl n | inr low ↦ inr (omega arith) ])
    ∙ put_cache-other 0 index m cache k j (elim o [ inl n ↦ inl n | inr low ↦ inr (omega arith) ])

cache_leaves-here :
    (index : ℕ) (ms : List ℕ) (cache : Cache) (i : ℕ)
    → index + length ms < 2 ^ 64
    → i < length ms
    → cache_leaves index ms cache 0 (index + i) ≡ leaves ms i
unfolding cache_leaves
cache_leaves-here index [] cache i small inside = absurd (omega arith)
cache_leaves-here index (m ∷ ms) cache zero small inside =
    cache_leaves-other (add64 index 1) ms (put_cache 0 index m cache) 0 (index + 0) (omega arith)
      (inr (omega arith))
    ∙ ap (put_cache 0 index m cache 0) (omega arith)
    ∙ put_cache-here 0 index m cache
cache_leaves-here index (m ∷ ms) cache (suc i) small inside =
    ap (cache_leaves (add64 index 1) ms (put_cache 0 index m cache) 0) (omega arith)
    ∙ cache_leaves-here (add64 index 1) ms (put_cache 0 index m cache) i (omega arith) (omega arith)

pub leaves-append : (xs ys : List ℕ) (i : ℕ) → leaves (xs ++ ys) (length xs + i) ≡ leaves ys i
leaves-append [] ys i = ap (leaves ys) (omega arith)
leaves-append (x ∷ xs) ys i =
    let e : suc (length xs) + i ≡ suc (length xs + i) = omega arith in
    ap (leaves (x ∷ xs ++ ys)) e ∙ leaves-append xs ys i

module _ (keccak2 : ℕ → ℕ → ℕ) where
  HasCached-zero :
      (room h : ℕ) (level : Level) (cache : Cache) → HasCached keccak2 room h 0 level cache
  HasCached-zero zero h level cache = tt
  HasCached-zero (suc room) h level cache =
      (inl refl, HasCached-zero room (suc h) (up keccak2 level) cache)

  HasSiblings-level :
      (room h count : ℕ) (a b : Level) (branches : Hashes)
      → ((i : ℕ) → i < count → b i ≡ a i)
      → HasSiblings keccak2 room h count a branches
      → HasSiblings keccak2 room h count b branches
  HasSiblings-level zero h count a b branches e s = tt
  HasSiblings-level (suc room) h count a b branches e s = (
    elim s.0 [
      | inl even ↦ inl even
      | inr held ↦ elim (ℕ_discrete count 0) [
        | yes z ↦ inl (omega arith)
        | no pos ↦ inr (held ∙ sym (e (count - 1) (omega arith)))
      ]
    ],
    HasSiblings-level room (suc h) (count / 2) (up keccak2 a) (up keccak2 b) branches
        (λ i low.
          let l : 2 * i < count = omega arith in
          let r : 2 * i + 1 < count = omega arith in cc (e (2 * i) l, e (2 * i + 1) r))
        s.1,
  )

  -- The branches that are cached are the siblings that the first new message needs.
  cache_branches-HasCached :
      (room n h index : ℕ) (level : Level) (branches : Hashes) (cache : Cache)
      → index < 2 ^ n
      → HasSiblings keccak2 room h index level branches
      → HasCached keccak2 room h index level (cache_branches n h index branches cache)
  unfolding cache_branches
  cache_branches-HasCached zero n h index level branches cache small s = tt
  cache_branches-HasCached (suc room) zero h index level branches cache small s =
      let one : 2 ^ 0 ≡ 1 = refl in
      let z : 0 ≡ index = omega (arith, small, one) in
      subst (λ k. HasCached keccak2 (suc room) h k level cache) z
        (HasCached-zero (suc room) h level cache)
  cache_branches-HasCached (suc room) (suc n) h index level branches cache small s =
      let next = (if index % 2 == 1 then put_cache h (flip index) (branches h) cache else cache) in
      (
        elim (ℕ_discrete (index % 2) 0) [
          | yes even ↦ inl even
          | no odd ↦ inr (
              cache_branches-below n (suc h) (index / 2) branches next h (index - 1) (omega arith)
              ∙ put (omega arith)
              ∙ elim s.0 [ inl even ↦ absurd (odd even) | inr held ↦ held ])
        ],
        cache_branches-HasCached room n (suc h) (index / 2) (up keccak2 level) branches next
            (omega (arith, small, pow-succ' 2 n)) s.1,
      )
    where
      put :
          index % 2 ≡ 1
          → (if index % 2 == 1 then put_cache h (flip index) (branches h) cache else cache) h
              (index - 1)
            ≡ branches h
      put odd =
          let t : (index % 2 == 1) ≡ true = ground arith in
          let f : (index % 2 == 0) ≡ false = ground arith in
          let other : flip index ≡ index - 1 = rw f refl in
          let taken : (if index % 2 == 1
                then put_cache h (flip index) (branches h) cache
                else cache)
              ≡ put_cache h (flip index) (branches h) cache =
            rw t refl in
          ap (λ (c : Cache). c h (index - 1)) taken
          ∙ ap (λ i. put_cache h i (branches h) cache h (index - 1)) other
          ∙ put_cache-here h (index - 1) (branches h) cache

  rounds-small :
      (l : List ℕ) (branches : Hashes) (h : Option ℕ)
      → IsHeightOf keccak2 l branches h
      → length l < 2 ^ rounds keccak2 h
  rounds-small [] branches none k = omega arith
  rounds-small [] branches (some h) k = absurd k
  rounds-small (m ∷ l) branches none k = absurd k
  rounds-small (m ∷ l) branches (some h) k = omega (arith, k.0.fits, pow-succ' 2 h)

module _ (keccak2 : ℕ → ℕ → ℕ) (old new : List ℕ) (t : Trie) (k : IsTrieOf keccak2 old t)
    (small : length old + length new ≤ 2 ^ 39) where
  abbrev pub all_leaves : Level
  all_leaves = leaves (old ++ new)

  cached-HasCached : HasCached keccak2 40 0 (length old) all_leaves (cached keccak2 t new)
  unfolding cached
  cached-HasCached =
      let base =
        (if t.next_message_nonce == 0
          then (λ h i. 0)
          else cache_branches (rounds keccak2 t.height) 0 t.next_message_nonce t.branches
              (λ h i. 0)) in
      HasCached-ext keccak2 40 0 (length old) all_leaves base (cached keccak2 t new)
        (λ h above j o.
          cache_leaves-other t.next_message_nonce new base h j (omega (arith, k.nonce, small))
            (elim o [ inl high ↦ inl (omega arith) | inr low ↦ inr (omega (arith, k.nonce)) ]))
        (if_both (HasCached keccak2 40 0 (length old) all_leaves) (t.next_message_nonce == 0)
          (λ z.
            let none_yet : 0 ≡ length old =
              sym (sym k.nonce ∙ (==_iff t.next_message_nonce 0).0 z) in
            subst (λ n. HasCached keccak2 40 0 n all_leaves (λ h i. 0)) none_yet
              (HasCached-zero keccak2 40 0 all_leaves (λ h i. 0)))
          (λ _.
            subst
              (λ n.
                HasCached keccak2 40 0 (length old) all_leaves
                  (cache_branches (rounds keccak2 t.height) 0 n t.branches (λ h i. 0)))
              (sym k.nonce)
              (cache_branches-HasCached keccak2 40 (rounds keccak2 t.height) 0 (length old)
                all_leaves t.branches (λ h i. 0)
                (rounds-small keccak2 old t.branches t.height k.height)
                (HasSiblings-level keccak2 40 0 (length old) (leaves old) all_leaves t.branches
                  (λ i low. get_or-below old new i low) k.siblings))))

  cached-IsHeld :
      0 < length new
      → IsHeld keccak2 0
          (length old)
          (length old + length new - 1)
          all_leaves
          (cached keccak2 t new)
  unfolding cached zeroes
  cached-IsHeld pos = record {
    range = omega arith;
    held = λ j low high.
        let at : t.next_message_nonce + (j - length old) ≡ j = omega (arith, k.nonce) in
        let there : length old + (j - length old) ≡ j = omega arith in
        ap (cached keccak2 t new 0) (sym at)
        ∙ cache_leaves-here t.next_message_nonce new _ (j - length old)
            (omega (arith, k.nonce, small)) (omega arith)
        ∙ sym (leaves-append old new (j - length old))
        ∙ ap all_leaves there;
    sibling = cached-HasCached.0;
    empty = λ j high. get_or-above (old ++ new) j (omega (arith, length-append old new));
  }

  pub built :
      0 < length new
      → (c : Cache) × (build keccak2 39 0
            (length old)
            (length old + length new - 1)
            (cached keccak2 t new)
          ≡ some c)
        × IsBuilt keccak2 0
            (length old)
            (length old + length new - 1)
            all_leaves
            (cached keccak2 t new)
            c
  built pos =
      build-IsBuilt keccak2 39 0 (length old) (length old + length new - 1) all_leaves
        (cached keccak2 t new) (omega arith) (cached-IsHeld pos) cached-HasCached.1

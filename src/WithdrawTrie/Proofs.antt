-- ===== src/WithdrawTrie/Proofs.antt =====
-- The proofs that AppendMessages returns:
-- bridge-history-api/internal/utils/withdraw_trie.go.
use native.Mathlib.Decide.{ℕ_discrete}
use native.Mathlib.Nat.{pow-succ'}
use scroll.Common.{
  ℕ, zero, suc, ◌+◌, ◌*◌, ◌-◌, ◌/◌, ◌%◌, ◌^◌, ◌<◌, ◌≤◌, ◌≡◌, ◌⊎◌, refl, sym, ap, ◌∙◌, subst, inl,
  inr, true, false, some, List, [], ◌∷◌, arith, ◌==◌, if◌then◌else◌,
}
use scroll.WithdrawTrie.{Cache, flip, zeroes, retrieve, build_level, build}
use scroll.WithdrawTrie.Nodes.{Level, up, node, IsDepthOf}
use scroll.WithdrawTrie.Cached.{IsHeld, build_level-IsLevelBuilt}

module _ (keccak2 : ℕ → ℕ → ℕ) where
  -- The siblings on the way from a position to the root.
  abbrev pub siblings : ℕ → Level → ℕ → List ℕ
  siblings zero level index = []
  siblings (suc depth) level index =
      level (flip index) ∷ siblings depth (up keccak2 level) (index / 2)

  -- What a verifier computes from a leaf and its proof.
  abbrev pub climb : ℕ → ℕ → List ℕ → ℕ
  climb index hash [] = hash
  climb index hash (p ∷ proof) =
      climb (index / 2) (if index % 2 == 0 then keccak2 hash p else keccak2 p hash) proof

  pub climb-siblings :
      (depth : ℕ) (level : Level) (index : ℕ)
      → index < 2 ^ depth
      → climb index (level index) (siblings depth level index) ≡ node keccak2 depth level 0
  climb-siblings zero level index small = ap level (omega arith)
  climb-siblings (suc depth) level index small =
      ap (λ x. climb (index / 2) x (siblings depth (up keccak2 level) (index / 2))) step
      ∙ climb-siblings depth (up keccak2 level) (index / 2) (omega (arith, pow-succ' 2 depth))
    where
      step :
          (if index % 2 == 0
            then keccak2 (level index) (level (flip index))
            else keccak2 (level (flip index)) (level index))
          ≡ up keccak2 level (index / 2)
      step = elim (ℕ_discrete (index % 2) 0) [
        | yes even ↦
            let t : (index % 2 == 0) ≡ true = ground arith in
            let left : index ≡ 2 * (index / 2) = omega arith in
            let right : index + 1 ≡ 2 * (index / 2) + 1 = omega arith in
            rw t (cc (ap level left, ap level right))
        | no odd ↦
            let f : (index % 2 == 0) ≡ false = ground arith in
            let left : index - 1 ≡ 2 * (index / 2) = omega arith in
            let right : index ≡ 2 * (index / 2) + 1 = omega arith in rw f (cc (ap level right))
      ]

  -- The left siblings that the first new message needs, at each level from a height on.
  abbrev pub HasCached : ℕ → ℕ → ℕ → Level → Cache → Type 0
  HasCached zero h count level cache = Unit
  HasCached (suc room) h count level cache =
      ((count % 2 ≡ 0) ⊎ (cache h (count - 1) ≡ level (count - 1)))
      × HasCached room (suc h) (count / 2) (up keccak2 level) cache

  pub HasCached-ext :
      (room h count : ℕ) (level : Level) (a b : Cache)
      → ((k : ℕ) → h ≤ k → (j : ℕ) → (h < k) ⊎ (j < count) → b k j ≡ a k j)
      → HasCached room h count level a
      → HasCached room h count level b
  HasCached-ext zero h count level a b e s = tt
  HasCached-ext (suc room) h count level a b e s = (
    elim s.0 [
      | inl even ↦ inl even
      | inr held ↦ elim (ℕ_discrete count 0) [
        | yes z ↦ inl (omega arith)
        | no pos ↦ inr (e h (omega arith) (count - 1) (inr (omega arith)) ∙ held)
      ]
    ],
    HasCached-ext room (suc h) (count / 2) (up keccak2 level) a b
        (λ k above j o. e k (omega arith) j (inl (omega arith))) s.1,
  )

  pub IsDepthOf-half :
      (index depth : ℕ)
      → 0 < index
      → IsDepthOf index depth
      → (d : ℕ) × (depth ≡ suc d) × IsDepthOf (index / 2) d
  IsDepthOf-half index zero pos d =
      let one : 2 ^ 0 ≡ 1 = refl in absurd (omega (arith, d.fits, one))
  IsDepthOf-half index (suc zero) pos d =
      (0, refl, record { fits = omega (arith, d.fits, pow-succ' 2 0); least = inl refl })
  IsDepthOf-half index (suc (suc depth)) pos d =
      let double = pow-succ' 2 (suc depth) in
      let half = pow-succ' 2 depth in
      (
        suc depth,
        refl,
        record {
          fits = omega (arith, d.fits, double);
          least = inr (elim d.least [
            | inl z ↦ absurd (omega (arith, z))
            | inr e ↦ omega (arith, e, double, half)
          ]);
        },
      )

  empty-up :
      (h max_index : ℕ) (level : Level)
      → ((j : ℕ) → max_index < j → level j ≡ zeroes keccak2 h)
      → (j : ℕ) → max_index / 2 < j
      → up keccak2 level j ≡ zeroes keccak2 (suc h)
  unfolding zeroes
  empty-up h max_index level e j above =
      let a : max_index < 2 * j = omega arith in
      let b : max_index < 2 * j + 1 = omega arith in cc (e (2 * j) a, e (2 * j + 1) b)

  -- The cache that is built up holds the siblings of every position of the range.
  pub record IsBuilt (h min_index max_index : ℕ) (level : Level) (before after : Cache)
      : Type 0 where
    pub below : (k j : ℕ) → k < h → after k j ≡ before k j
    pub proofs :
        (depth index : ℕ)
        → IsDepthOf max_index depth
        → min_index ≤ index
        → index ≤ max_index
        → retrieve depth h index after ≡ siblings depth level index

  build-zero :
      (room h min_index max_index : ℕ) (level : Level) (cache : Cache)
      → max_index ≡ 0
      → (c : Cache) × (build keccak2 room h min_index max_index cache ≡ some c)
        × IsBuilt h min_index max_index level cache c
  unfolding build retrieve
  build-zero room h min_index max_index level cache z = (
    cache,
    ended room,
    record { below = λ k j small. refl; proofs = λ depth index d a b. no_depth depth index d },
  )
    where
      ended : (n : ℕ) → build keccak2 n h min_index max_index cache ≡ some cache
      ended zero = ground arith
      ended (suc n) = ground arith

      no_depth :
          (depth index : ℕ)
          → IsDepthOf max_index depth
          → retrieve depth h index cache ≡ siblings depth level index
      no_depth zero index d = refl
      no_depth (suc depth) index d = elim d.least [
        | inl n ↦ absurd (omega (arith, n))
        | inr e ↦ absurd (omega (arith, e, z))
      ]

  build-step :
      (room h min_index max_index : ℕ) (cache : Cache)
      → 0 < max_index
      → build keccak2 (suc room) h min_index max_index cache
        ≡ build keccak2 room
            (suc h)
            (min_index / 2)
            (max_index / 2)
            (build_level keccak2 h min_index max_index cache)
  unfolding build
  build-step room h min_index max_index cache pos = ground arith

  pub build-IsBuilt :
      (room h min_index max_index : ℕ) (level : Level) (cache : Cache)
      → max_index < 2 ^ room
      → IsHeld keccak2 h min_index max_index level cache
      → HasCached room (suc h) (min_index / 2) (up keccak2 level) cache
      → (c : Cache) × (build keccak2 room h min_index max_index cache ≡ some c)
        × IsBuilt h min_index max_index level cache c
  unfolding retrieve
  build-IsBuilt zero h min_index max_index level cache small s higher =
      let one : 2 ^ 0 ≡ 1 = refl in
      build-zero zero h min_index max_index level cache (omega (arith, small, one))
  build-IsBuilt (suc room) h min_index max_index level cache small s higher =
      elim (ℕ_discrete max_index 0) [
        | yes z ↦ build-zero (suc room) h min_index max_index level cache z
        | no pos ↦
            let next = build_level keccak2 h min_index max_index cache in
            let b = build_level-IsLevelBuilt keccak2 h min_index max_index level cache s in
            let kept =
              HasCached-ext (suc room) (suc h) (min_index / 2) (up keccak2 level) cache next
                (λ k above j o. b.others k j (split k j above o)) higher in
            let range = s.range in
            let (c, run, built) =
              build-IsBuilt room (suc h) (min_index / 2) (max_index / 2) (up keccak2 level) next
                (omega (arith, small, pow-succ' 2 room))
                (record {
                  range = omega arith;
                  held = b.above;
                  sibling = kept.0;
                  empty = empty-up h max_index level s.empty;
                })
                kept.1 in
            (
              c,
              build-step room h min_index max_index cache (omega arith) ∙ run,
              record {
                below = λ k j low. built.below k j (omega arith) ∙ b.others k j (inl low);
                proofs = λ depth index d low high.
                    let (d1, e, half) = IsDepthOf-half max_index depth (omega arith) d in
                    subst (λ n. retrieve n h index c ≡ siblings n level index) (sym e)
                      (cons-eq
                        (built.below h (flip index) (omega arith)
                          ∙ b.here (flip index) (flip-low index low) (flip-high index high))
                        (built.proofs d1 (index / 2) half (omega arith) (omega arith)));
              },
            )
      ]
    where
      split :
          (k j : ℕ)
          → suc h ≤ k
          → (suc h < k) ⊎ (j < min_index / 2)
          → (k < h) ⊎ ((suc h < k) ⊎ ((k ≡ suc h) × (j < min_index / 2)))
      split k j above o = ground arith

      cons-eq : {a b : ℕ} {xs ys : List ℕ} → a ≡ b → xs ≡ ys → a ∷ xs ≡ b ∷ ys
      cons-eq p q = λ i. p i ∷ q i

      flip-low : (index : ℕ) → min_index ≤ index → min_index / 2 * 2 ≤ flip index
      flip-low index low = ground arith

      flip-high : (index : ℕ) → index ≤ max_index → flip index ≤ max_index / 2 * 2 + 1
      flip-high index high = ground arith

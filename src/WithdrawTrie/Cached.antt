-- ===== src/WithdrawTrie/Cached.antt =====
-- The cache of AppendMessages holds the nodes of the whole tree:
-- bridge-history-api/internal/utils/withdraw_trie.go.
use native.Mathlib.Decide.{ℕ_discrete}
use scroll.Common.{
  ℕ, zero, suc, ◌+◌, ◌*◌, ◌-◌, ◌/◌, ◌%◌, ◌<◌, ◌≤◌, ◌≡◌, ◌≢◌, ◌⊎◌, refl, sym, ap, ◌∙◌, inl, inr,
  true, false, arith, ◌==◌, if◌then◌else◌,
}
use scroll.WithdrawTrie.{Cache, put_cache, flip, zeroes, build_pairs, build_level}
use scroll.WithdrawTrie.Nodes.{Level, up}

pub put_cache-here : (h i x : ℕ) (cache : Cache) → put_cache h i x cache h i ≡ x
put_cache-here h i x cache = ground arith

pub put_cache-other :
    (h i x : ℕ) (cache : Cache) (k j : ℕ)
    → (k ≢ h) ⊎ (j ≢ i)
    → put_cache h i x cache k j ≡ cache k j
put_cache-other h i x cache k j n = ground arith

module _ (keccak2 : ℕ → ℕ → ℕ) where
  -- The entries of the level above are put in, and no other entry changes.
  pub build_pairs-eq :
      (n h i : ℕ) (level : Level) (cache : Cache)
      → i % 2 ≡ 0
      → ((j : ℕ) → i ≤ j → j < i + 2 * n → cache h j ≡ level j)
      → ((j : ℕ)
          → i / 2 ≤ j
          → j < i / 2 + n
          → build_pairs keccak2 n h i cache (suc h) j ≡ up keccak2 level j)
        × ((k j : ℕ) → (k ≢ suc h) ⊎ (j < i / 2) → build_pairs keccak2 n h i cache k j ≡ cache k j)
  unfolding build_pairs
  build_pairs-eq zero h i level cache even held = (λ j a b. absurd (omega arith), λ k j o. refl)
  build_pairs-eq (suc n) h i level cache even held =
      let x = keccak2 (cache h i) (cache h (flip i)) in
      let next = put_cache (suc h) (i / 2) x cache in
      let left : i ≡ 2 * (i / 2) = omega arith in
      let right : flip i ≡ 2 * (i / 2) + 1 = ground arith in
      let first : x ≡ up keccak2 level (i / 2) = cc (
        held i (omega arith) (omega arith),
        held (flip i) (omega (arith, right)) (omega (arith, right)),
        ap level left,
        ap level right,
      ) in
      let (built, others) = build_pairs-eq n h (i + 2) level next (omega arith) (λ j a b.
        put_cache-other (suc h) (i / 2) x cache h j (inl (omega arith))
        ∙ held j (omega arith) (omega arith)) in
      (
        λ j a b. elim (ℕ_discrete j (i / 2)) [
          | yes e ↦
              others (suc h) j (inr (omega (arith, e)))
              ∙ ap (next (suc h)) e
              ∙ put_cache-here (suc h) (i / 2) x cache
              ∙ first
              ∙ ap (up keccak2 level) (sym e)
          | no n' ↦ built j (omega arith) (omega arith)
        ],
        λ k j o. elim o [
          | inl a ↦ others k j (inl a) ∙ put_cache-other (suc h) (i / 2) x cache k j (inl a)
          | inr b ↦
              others k j (inr (omega arith))
              ∙ put_cache-other (suc h) (i / 2) x cache k j (inr (omega arith))
        ],
      )

  -- The state of the cache at a level, with the messages of a range of positions at its end.
  pub record IsHeld (h min_index max_index : ℕ) (level : Level) (cache : Cache) : Type 0 where
    pub range : min_index ≤ max_index
    pub held : (j : ℕ) → min_index ≤ j → j ≤ max_index → cache h j ≡ level j
    pub sibling : (min_index % 2 ≡ 0) ⊎ (cache h (min_index - 1) ≡ level (min_index - 1))
    pub empty : (j : ℕ) → max_index < j → level j ≡ zeroes keccak2 h

  -- What building the level above leaves.
  pub record IsLevelBuilt (h min_index max_index : ℕ) (level : Level) (before after : Cache)
      : Type 0 where
    pub above :
        (j : ℕ) → min_index / 2 ≤ j → j ≤ max_index / 2 → after (suc h) j ≡ up keccak2 level j
    pub here : (j : ℕ) → min_index / 2 * 2 ≤ j → j ≤ max_index / 2 * 2 + 1 → after h j ≡ level j
    pub others :
        (k j : ℕ)
        → (k < h) ⊎ ((suc h < k) ⊎ ((k ≡ suc h) × (j < min_index / 2)))
        → after k j ≡ before k j

  -- The level with the missing right sibling of its last node.
  abbrev filled : ℕ → ℕ → Cache → Cache
  filled h max_index cache =
      if max_index % 2 == 0 then put_cache h (flip max_index) (zeroes keccak2 h) cache else cache

  filled-even :
      (h max_index : ℕ) (cache : Cache)
      → max_index % 2 ≡ 0
      → filled h max_index cache ≡ put_cache h (max_index + 1) (zeroes keccak2 h) cache
  filled-even h max_index cache even =
      let t : (max_index % 2 == 0) ≡ true = ground arith in rw t refl

  filled-odd :
      (h max_index : ℕ) (cache : Cache) → max_index % 2 ≡ 1 → filled h max_index cache ≡ cache
  filled-odd h max_index cache odd =
      let f : (max_index % 2 == 0) ≡ false = ground arith in rw f refl

  filled-other :
      (h max_index : ℕ) (cache : Cache) (k j : ℕ)
      → (k ≢ h) ⊎ (j ≤ max_index)
      → filled h max_index cache k j ≡ cache k j
  filled-other h max_index cache k j o = elim (ℕ_discrete (max_index % 2) 0) [
    | yes even ↦
        ap (λ c. c k j) (filled-even h max_index cache even)
        ∙ put_cache-other h (max_index + 1) (zeroes keccak2 h) cache k j
            (elim o [ inl n ↦ inl n | inr small ↦ inr (omega arith) ])
    | no odd ↦ ap (λ c. c k j) (filled-odd h max_index cache (omega arith))
  ]

  filled-last :
      (h max_index : ℕ) (cache : Cache)
      → max_index % 2 ≡ 0
      → filled h max_index cache h (max_index + 1) ≡ zeroes keccak2 h
  filled-last h max_index cache even =
      ap (λ c. c h (max_index + 1)) (filled-even h max_index cache even)
      ∙ put_cache-here h (max_index + 1) (zeroes keccak2 h) cache

  filled-held :
      (h min_index max_index : ℕ) (level : Level) (cache : Cache)
      → IsHeld h min_index max_index level cache
      → (j : ℕ) → min_index / 2 * 2 ≤ j
      → j ≤ max_index / 2 * 2 + 1
      → filled h max_index cache h j ≡ level j
  filled-held h min_index max_index level cache s j a b = elim (ℕ_discrete j (max_index + 1)) [
    | yes e ↦
        ap (filled h max_index cache h) e
        ∙ filled-last h max_index cache (omega (arith, e, b))
        ∙ sym (ap level e ∙ s.empty (max_index + 1) (omega arith))
    | no inside ↦
        filled-other h max_index cache h j (inr (omega arith))
        ∙ elim (ℕ_discrete (j + 1) min_index) [
          | no in_range ↦ s.held j (omega arith) (omega arith)
          | yes before ↦ elim s.sibling [
            | inl even ↦ absurd (omega arith)
            | inr e ↦
                let there : j ≡ min_index - 1 = omega (arith, before) in
                ap (cache h) there ∙ e ∙ ap level (sym there)
          ]
        ]
  ]

  pub build_level-IsLevelBuilt :
      (h min_index max_index : ℕ) (level : Level) (cache : Cache)
      → IsHeld h min_index max_index level cache
      → IsLevelBuilt h min_index max_index level cache
          (build_level keccak2 h min_index max_index cache)
  unfolding build_level
  build_level-IsLevelBuilt h min_index max_index level cache s =
      let from = min_index / 2 * 2 in
      let n = (max_index - from) / 2 + 1 in
      let range = s.range in
      let (built, others) =
        build_pairs-eq n h from level (filled h max_index cache) (omega arith)
          (λ j a b. filled-held h min_index max_index level cache s j a (omega arith)) in
      record {
        above = λ j a b. built j (omega arith) (omega arith);
        here = λ j a b.
            others h j (inl (omega arith)) ∙ filled-held h min_index max_index level cache s j a b;
        others = λ k j o. elim o [
          | inl below ↦
              others k j (inl (omega arith))
              ∙ filled-other h max_index cache k j (inl (omega arith))
          | inr (inl above) ↦
              others k j (inl (omega arith))
              ∙ filled-other h max_index cache k j (inl (omega arith))
          | inr (inr (e, left)) ↦
              others k j (inr (omega arith))
              ∙ filled-other h max_index cache k j (inl (omega (arith, e)))
        ];
      }

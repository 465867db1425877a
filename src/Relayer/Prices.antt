-- ===== src/Relayer/Prices.antt =====
-- The test on a new gas price: rollup/internal/controller/relayer/l2_relayer.go and
-- rollup/internal/controller/relayer/l1_relayer.go.
use native.Mathlib.Decide.{ℕ_discrete}
use native.Mathlib.Nat.{mul-le-mul_left}
use scroll.Common.{
  ℕ, ◌+◌, ◌-◌, ◌*◌, ◌/◌, ◌≤◌, ◌<◌, ◌≡◌, ◌⊎◌, ◌↔◌, inl, inr, true, ◌&&◌, ◌||◌, arith, subst, ◌%◌,
  ltb, leb, ◌==◌, u64_mod, if◌then◌else◌, add64, sub64,
}
use scroll.Relayer.GasOracle.{expected_delta, is_sent}

-- The least change that counts: the share of the last price, and at least 1.
abbrev pub IsDelta : ℕ → ℕ → ℕ → Type 0
IsDelta last diff delta =
    (1 ≤ delta)
    × (last * diff < (delta + 1) * 1000000)
    × ((delta ≡ 1) ⊎ (delta * 1000000 ≤ last * diff))

-- What expected_delta computes from the product.
abbrev share_of : ℕ → ℕ → ℕ
share_of last product =
    if ltb 0 last && product % u64_mod / 1000000 == 0 then 1 else product % u64_mod / 1000000

share :
    (last product : ℕ)
    → 0 < last
    → product < u64_mod
    → (1 ≤ share_of last product)
      × (product < (share_of last product + 1) * 1000000)
      × ((share_of last product ≡ 1) ⊎ (share_of last product * 1000000 ≤ product))
share last product pos fits = let same : product % u64_mod ≡ product = omega arith in ground arith

expected_delta-IsDelta :
    (last diff : ℕ)
    → 0 < last
    → last * diff < u64_mod
    → IsDelta last diff (expected_delta last diff)
unfolding expected_delta
expected_delta-IsDelta last diff pos fits = share last (last * diff) pos fits

IsDelta-unique : (last diff a b : ℕ) → IsDelta last diff a → IsDelta last diff b → a ≡ b
IsDelta-unique last diff a b p q = at_product (last * diff) p q
  where
    at_product :
        (product : ℕ)
        → (1 ≤ a) × (product < (a + 1) * 1000000) × ((a ≡ 1) ⊎ (a * 1000000 ≤ product))
        → (1 ≤ b) × (product < (b + 1) * 1000000) × ((b ≡ 1) ⊎ (b * 1000000 ≤ product))
        → a ≡ b
    at_product product p q = omega arith

IsDelta-small :
    (last diff delta : ℕ) → 0 < last → diff ≤ 1000000 → IsDelta last diff delta → delta ≤ last
IsDelta-small last diff delta pos small (low, high, inl e) = omega arith
IsDelta-small last diff delta pos small (low, high, inr e) =
    let most : last * diff ≤ last * 1000000 = mul-le-mul_left last small in omega arith

-- The test, with the difference as it is computed.
at_delta :
    (min_price last price delta : ℕ)
    → 0 < last
    → last + last < u64_mod
    → delta ≤ last
    → (((last == 0)
          || (leb min_price price
              && (leb (add64 last delta) price || leb price (sub64 last delta))))
        ≡ true)
      ↔ ((min_price ≤ price) × ((last + delta ≤ price) ⊎ (price + delta ≤ last)))
at_delta min_price last price delta pos double small =
    let above : add64 last delta ≡ last + delta = omega arith in
    let below : sub64 last delta ≡ last - delta = omega arith in rw (above, below) (ground arith)

-- Let the product of the last price and the difference, and the last price with the difference,
-- fit 64 bits, and let the difference be at most a million millionths. The price test passes
-- exactly if there is no last price, or if the new one is not below the minimum and lies above or
-- below the last price by at least the share of it that the difference gives, and by at least 1.
pub is_sent-IsDelta :
    (min_price diff last price : ℕ)
    → last * diff < u64_mod
    → last + last < u64_mod
    → diff ≤ 1000000
    → (is_sent min_price diff last price ≡ true) ↔ (
        (last ≡ 0)
        ⊎ ((min_price ≤ price)
            × ((delta : ℕ) × (IsDelta last diff delta
                  × ((last + delta ≤ price) ⊎ (price + delta ≤ last))))))
unfolding is_sent expected_delta
is_sent-IsDelta min_price diff last price fits double small = elim (ℕ_discrete last 0) [
  | yes none_yet ↦ (λ e. inl none_yet, λ e. ground arith)
  | no other ↦
      let pos : 0 < last = omega arith in
      let delta = expected_delta last diff in
      let d = expected_delta-IsDelta last diff pos fits in
      let test =
        at_delta min_price last price delta pos double
          (IsDelta-small last diff delta pos small d) in
      (
        λ e. let (enough, far) = test.0 e in inr (enough, (delta, (d, far))),
        λ e. elim e [
          | inl z ↦ absurd (other z)
          | inr (enough, (x, (dx, far))) ↦ test.1 (
            enough,
            subst (λ y. (last + y ≤ price) ⊎ (price + y ≤ last))
                (IsDelta-unique last diff x delta dx d) far,
          )
        ],
      )
]

-- ===== src/Sender/Bumps.antt =====
-- A resubmitted transaction pays more, up to the configured limits:
-- rollup/internal/controller/sender/sender.go.
use native.Mathlib.Nat.{mul-le-mul_left, le-div_iff_mul-le}
use scroll.Common.{ℕ, ◌+◌, ◌≤◌, ◌<◌, ◌≡◌, refl, arith}
use scroll.Sender.{Config, FeeData}
use scroll.Sender.Fees.{
  get_gas_fee_cap, at_least, at_most, add_wei, escalate, bump_legacy, adjusted_fee_cap,
  bump_dynamic,
}

-- The configured multiple is at least 1.
pub record IsEscalating (cfg : Config) : Type 0 where
  pub den_positive : 0 < cfg.escalate_multiple_den
  pub at_least_one : cfg.escalate_multiple_den ≤ cfg.escalate_multiple_num

escalate-le : (cfg : Config) (fee : ℕ) → IsEscalating cfg → fee ≤ escalate cfg fee
escalate-le cfg fee e = (le-div_iff_mul-le e.den_positive).1 (mul-le-mul_left fee e.at_least_one)

-- A legacy transaction below the greatest gas price gets a higher one within the limit.
pub bump_legacy-raises :
    (cfg : Config) (f : FeeData)
    → IsEscalating cfg
    → f.gas_price < cfg.max_gas_price
    → (f.gas_price < (bump_legacy cfg f).gas_price)
      × ((bump_legacy cfg f).gas_price ≤ cfg.max_gas_price)
unfolding bump_legacy
bump_legacy-raises cfg f e below =
    let more = escalate-le cfg f.gas_price e in
    bounded f.gas_price (escalate cfg f.gas_price) cfg.max_gas_price below more
  where
    bounded :
        (price more most : ℕ)
        → price < most
        → price ≤ more
        → (price < add_wei price (at_most most more)) × (add_wei price (at_most most more) ≤ most)
    bounded price more most below le = ground arith

-- What the caps of a resubmitted transaction are worth.
pub record IsRaised (cfg : Config) (f g : FeeData) : Type 0 where
  pub tip_higher : f.gas_tip_cap < g.gas_tip_cap
  pub fee_higher : f.gas_fee_cap < g.gas_fee_cap
  pub tip_within : g.gas_tip_cap ≤ g.gas_fee_cap
  pub fee_within : g.gas_fee_cap ≤ cfg.max_gas_price

adjusted :
    (tip fee : ℕ) (more_tip more_fee current most : ℕ)
    → tip ≤ fee
    → fee < most
    → tip ≤ more_tip
    → fee ≤ more_fee
    → (cap : ℕ) → cap ≡ at_most most (at_least current more_fee)
    → (tip < add_wei tip (at_most cap more_tip))
      × (fee < add_wei fee cap)
      × (add_wei tip (at_most cap more_tip) ≤ add_wei fee cap)
      × (add_wei fee cap ≤ most)
adjusted tip fee more_tip more_fee current most order below a b cap e =
    let low : fee ≤ cap = ground arith in
    let high : cap ≤ most = ground arith in (ground arith, ground arith, ground arith, ground arith)

-- Let the configured multiple be at least 1. A transaction with dynamic fees and without a blob,
-- whose tip cap is at most its fee cap and whose fee cap is below the limit, gets a higher tip cap
-- and a higher fee cap, of which the first is at most the second and the second within the limit.
pub bump_dynamic-IsRaised :
    (cfg : Config) (base_fee : ℕ) (f : FeeData)
    → IsEscalating cfg
    → f.gas_tip_cap ≤ f.gas_fee_cap
    → f.gas_fee_cap < cfg.max_gas_price
    → IsRaised cfg f (bump_dynamic cfg base_fee f)
unfolding bump_dynamic adjusted_fee_cap
bump_dynamic-IsRaised cfg base_fee f e order below =
    let tip = escalate cfg f.gas_tip_cap in
    let (a, b, c, d) =
      adjusted f.gas_tip_cap f.gas_fee_cap tip (escalate cfg f.gas_fee_cap)
        (get_gas_fee_cap base_fee tip) cfg.max_gas_price order below
        (escalate-le cfg f.gas_tip_cap e) (escalate-le cfg f.gas_fee_cap e)
        (adjusted_fee_cap cfg base_fee tip (escalate cfg f.gas_fee_cap)) refl in
    record { tip_higher = a; fee_higher = b; tip_within = c; fee_within = d }

-- The tip cap is 1 wei above the limit, and the fee cap is at it.
pub record AreInverted (cfg : Config) (f : FeeData) : Type 0 where
  pub tip : f.gas_tip_cap ≡ cfg.max_gas_price + 1
  pub fee : f.gas_fee_cap ≡ cfg.max_gas_price

-- One replacement of caps at the limits: `tip` is below the limit and escalates to it.
to_limit :
    (tip fee more_tip more_fee current most : ℕ)
    → tip < most
    → fee ≡ most
    → most ≤ more_tip
    → fee ≤ more_fee
    → (cap : ℕ) → cap ≡ at_most most (at_least current more_fee)
    → (add_wei tip (at_most cap more_tip) ≡ most) × (add_wei fee cap ≡ most + 1)
to_limit tip fee more_tip more_fee current most below at far b cap e =
    let same : cap ≡ most = ground arith in (ground arith, ground arith)

-- One more of them: the tip cap is at the limit and the fee cap 1 wei above it.
over_limit :
    (tip fee more_tip more_fee current most : ℕ)
    → tip ≡ most
    → fee ≡ most + 1
    → tip ≤ more_tip
    → fee ≤ more_fee
    → (cap : ℕ) → cap ≡ at_most most (at_least current more_fee)
    → (add_wei tip (at_most cap more_tip) ≡ most + 1) × (add_wei fee cap ≡ most)
over_limit tip fee more_tip more_fee current most at above a b cap e =
    let same : cap ≡ most = ground arith in (ground arith, ground arith)

over_limit-AreInverted :
    (cfg : Config) (base_fee : ℕ) (f : FeeData)
    → IsEscalating cfg
    → f.gas_tip_cap ≡ cfg.max_gas_price
    → f.gas_fee_cap ≡ cfg.max_gas_price + 1
    → AreInverted cfg (bump_dynamic cfg base_fee f)
unfolding bump_dynamic adjusted_fee_cap
over_limit-AreInverted cfg base_fee f e at above =
    let tip = escalate cfg f.gas_tip_cap in
    let (a, b) =
      over_limit f.gas_tip_cap f.gas_fee_cap tip (escalate cfg f.gas_fee_cap)
        (get_gas_fee_cap base_fee tip) cfg.max_gas_price at above (escalate-le cfg f.gas_tip_cap e)
        (escalate-le cfg f.gas_fee_cap e)
        (adjusted_fee_cap cfg base_fee tip (escalate cfg f.gas_fee_cap)) refl in
    record { tip = a; fee = b }

-- Let the configured multiple be at least 1. If the tip cap of a transaction without a blob is
-- below the limit but its escalation is not, and the fee cap is at the limit, then after two
-- replacements, at any base fees, the tip cap is 1 wei above the limit and the fee cap at it.
pub bump_dynamic-inverts :
    (cfg : Config) (base_fee next_base_fee : ℕ) (f : FeeData)
    → IsEscalating cfg
    → f.gas_tip_cap < cfg.max_gas_price
    → f.gas_fee_cap ≡ cfg.max_gas_price
    → cfg.max_gas_price ≤ escalate cfg f.gas_tip_cap
    → AreInverted cfg (bump_dynamic cfg next_base_fee (bump_dynamic cfg base_fee f))
unfolding bump_dynamic adjusted_fee_cap
bump_dynamic-inverts cfg base_fee next_base_fee f e below at far =
    let tip = escalate cfg f.gas_tip_cap in
    let (a, b) =
      to_limit f.gas_tip_cap f.gas_fee_cap tip (escalate cfg f.gas_fee_cap)
        (get_gas_fee_cap base_fee tip) cfg.max_gas_price below at far
        (escalate-le cfg f.gas_fee_cap e)
        (adjusted_fee_cap cfg base_fee tip (escalate cfg f.gas_fee_cap)) refl in
    over_limit-AreInverted cfg next_base_fee (bump_dynamic cfg base_fee f) e a b

-- ===== src/Forks/Ranges.antt =====
-- The searches over fork heights of common/forks/forks.go, against what they look for.
use scroll.Common.{
  ℕ, ◌+◌, ◌-◌, ◌≤◌, ◌<◌, ◌≡◌, refl, true, ◌⊎◌, inl, inr, List, [], ◌∷◌, arith, ◌==◌, ltb, ltb→lt,
  ==_refl, or_true, All, max_int64, Bool-cases, subst, sym,
}
use scroll.Forks.{mem, blocks_until_fork, block_range_from, block_range}
use scroll.Forks.Heights.{IsAscending}

-- `r` is the distance from a block to the first fork above it, or 0 if there is none.
abbrev pub IsDistance : ℕ → List ℕ → ℕ → Type 0
IsDistance b hs r =
    ((r ≡ 0) × All (λ f. f ≤ b) hs)
    ⊎ ((0 < r) × (mem (b + r) hs ≡ true) × All (λ f. (f ≤ b) ⊎ (b + r ≤ f)) hs)

All-above : (b t : ℕ) (hs : List ℕ) → All (λ f. t < f) hs → All (λ f. (f ≤ b) ⊎ (t ≤ f)) hs
All-above b t [] a = tt
All-above b t (h ∷ hs) a = (inr (omega arith), All-above b t hs a.1)

IsDistance-cons : (b h r : ℕ) (hs : List ℕ) → h ≤ b → IsDistance b hs r → IsDistance b (h ∷ hs) r
unfolding mem
IsDistance-cons b h r hs below (inl d) = inl (d.0, (below, d.1))
IsDistance-cons b h r hs below (inr d) = inr (d.0, ground (arith, d.1), (inl below, d.2))

IsDistance-here :
    (b h : ℕ) (hs : List ℕ) → b < h → All (λ f. h < f) hs → IsDistance b (h ∷ hs) (h - b)
unfolding mem
IsDistance-here b h hs above a =
    inr (omega arith, ground arith, (inr (omega arith), All-above b (b + (h - b)) hs lower))
  where
    e : b + (h - b) ≡ h
    e = omega arith

    lower : All (λ f. b + (h - b) < f) hs
    lower = subst (λ t. All (λ f. t < f) hs) (sym e) a

-- Over ascending heights, `BlocksUntilFork` returns the distance to the nearest fork above the
-- block, and 0 if no fork is above it.
pub blocks_until_fork-IsDistance :
    (b : ℕ) (hs : List ℕ) → IsAscending hs → IsDistance b hs (blocks_until_fork b hs)
unfolding blocks_until_fork
blocks_until_fork-IsDistance b [] a = inl (refl, tt)
blocks_until_fork-IsDistance b (h ∷ hs) a = elim (Bool-cases (ltb b h)) [
  | inl above ↦
      subst (IsDistance b (h ∷ hs)) (rw above) (IsDistance-here b h hs (ltb→lt b h above) a.0)
  | inr below ↦ subst (IsDistance b (h ∷ hs)) (rw below) (
      IsDistance-cons b h (blocks_until_fork b hs) hs (ground arith)
        (blocks_until_fork-IsDistance b hs a.1))
]

-- `[from, to)` holds a block and no fork inside it; each end is a fork, or the end of the scale.
abbrev pub IsRange : ℕ → List ℕ → ℕ → ℕ → Type 0
IsRange c hs from to =
    (from ≤ c)
    × (c < to)
    × ((from ≡ 0) ⊎ (mem from hs ≡ true))
    × ((to ≡ max_int64) ⊎ (mem to hs ≡ true))
    × All (λ f. (f ≤ from) ⊎ (to ≤ f)) hs

mem-cons : (x h : ℕ) (hs : List ℕ) → mem x hs ≡ true → mem x (h ∷ hs) ≡ true
unfolding mem
mem-cons x h hs e = rw e (or_true (h == x))

mem-head : (x : ℕ) (hs : List ℕ) → mem x (x ∷ hs) ≡ true
unfolding mem
mem-head x hs = rw ==_refl

mem-second : (x h : ℕ) (hs : List ℕ) → mem x (h ∷ x ∷ hs) ≡ true
mem-second x h hs = mem-cons x h (x ∷ hs) (mem-head x hs)

IsRange-cons :
    (c h from to : ℕ) (hs : List ℕ) → h ≤ from → IsRange c hs from to → IsRange c (h ∷ hs) from to
IsRange-cons c h from to hs le (l, u, f, t, a) = (
  l,
  u,
  elim f [ inl z ↦ inl z | inr m ↦ inr (mem-cons from h hs m) ],
  elim t [ inl z ↦ inl z | inr m ↦ inr (mem-cons to h hs m) ],
  (inl le, a),
)

block_range_from_ge :
    (c from : ℕ) (hs : List ℕ) → IsAscending (from ∷ hs) → from ≤ (block_range_from c from hs).0
unfolding block_range_from
block_range_from_ge c from [] a = omega arith
block_range_from_ge c from (h ∷ hs) a = ground (arith, block_range_from_ge c h hs a.1)

block_range_from-IsRange :
    (c from : ℕ) (hs : List ℕ)
    → c < max_int64
    → from ≤ c
    → IsAscending (from ∷ hs)
    → let (f, t) = block_range_from c from hs in IsRange c (from ∷ hs) f t
unfolding block_range_from
block_range_from-IsRange c from [] small le a =
    (le, small, inr (mem-head from []), inl refl, (inl (omega arith), tt))
block_range_from-IsRange c from (h ∷ hs) small le a = elim (Bool-cases (ltb c h)) [
  | inl t ↦
      subst (λ (r : ℕ × ℕ). IsRange c (from ∷ h ∷ hs) r.0 r.1) (rw t)
        (
          le,
          ltb→lt c h t,
          inr (mem-head from (h ∷ hs)),
          inr (mem-second h from hs),
          (inl (omega arith), (inr (omega arith), All-above from h hs a.1.0)),
        )
  | inr t ↦
      subst (λ (r : ℕ × ℕ). IsRange c (from ∷ h ∷ hs) r.0 r.1) (rw t)
        (IsRange-cons c from (block_range_from c h hs).0 (block_range_from c h hs).1 (h ∷ hs)
          (omega (arith, block_range_from_ge c h hs a.1, a.0.0))
          (block_range_from-IsRange c h hs small (ground arith) a.1))
]

-- Over ascending heights, and for a block below the largest int64, `BlockRange` returns a range
-- that holds the block, with no fork strictly inside; its lower end is 0 or a fork and its upper
-- end is a fork or the largest int64.
block_range-IsRange :
    (c : ℕ) (hs : List ℕ)
    → c < max_int64
    → IsAscending hs
    → IsRange c hs (block_range c hs).0 (block_range c hs).1
unfolding block_range block_range_from
block_range-IsRange c [] small a = (omega arith, small, inl refl, inl refl, tt)
block_range-IsRange c (h ∷ hs) small a = elim (Bool-cases (ltb c h)) [
  | inl t ↦
      subst (λ (r : ℕ × ℕ). IsRange c (h ∷ hs) r.0 r.1) (rw t)
        (
          omega arith,
          ltb→lt c h t,
          inl refl,
          inr (mem-head h hs),
          (inr (omega arith), All-above 0 h hs a.0),
        )
  | inr t ↦
      subst (λ (r : ℕ × ℕ). IsRange c (h ∷ hs) r.0 r.1) (rw t)
        (block_range_from-IsRange c h hs small (ground arith) a)
]

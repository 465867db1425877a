-- ===== src/Forks/Heights.antt =====
-- The heights that common/forks/forks.go collects from a chain configuration.
use scroll.Common.{
  ℕ, ◌<◌, ◌≡◌, Bool, false, ◌||◌, Option, none, some, List, [], ◌∷◌, ◌==◌, All, u64,
}
use scroll.Forks.{ForkName, ChainConfig, mem}

-- Whether one of the forks is scheduled at a height.
abbrev pub is_at : Option ℕ → ℕ → Bool
is_at none h = false
is_at (some block) h = u64 block == h

abbrev pub any_fork_at : ChainConfig → List ForkName → ℕ → Bool
any_fork_at config [] h = false
any_fork_at config (n ∷ ns) h = is_at (config n) h || any_fork_at config ns h

-- Each height is below all that follow it.
abbrev pub IsAscending : List ℕ → Type 0
IsAscending [] = Unit
IsAscending (x ∷ xs) = All (λ y. x < y) xs × IsAscending xs

abbrev IsDistinct : List ℕ → Type 0
IsDistinct [] = Unit
IsDistinct (x ∷ xs) = (mem x xs ≡ false) × IsDistinct xs

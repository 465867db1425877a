-- ===== src/L2Watcher/Reaches.antt =====
-- That the watcher of layer 2 blocks gets on:
-- rollup/internal/controller/watcher/l2_watcher.go.
use scroll.Common.{
  ℕ, zero, suc, ◌+◌, ◌-◌, ◌≡◌, ◌≤◌, ◌<◌, ◌⊎◌, inl, inr, refl, sym, subst, true, false, List, [],
  ◌∷◌, ◌++◌, length, Outcome, ok, err, arith, if_both, u64_mod, leb, add64,
}
use scroll.Encoding.{Block}
use scroll.Encoding.CodecV0.Gas.{estimate_block_size}
use scroll.Proposer.Limits.{IsRun}
use scroll.L2Watcher.{
  Client, WatchError, fetch_blocks, store_blocks, estimate_sizes, insert_l2_blocks,
  get_and_store_blocks, fetch_ranges, try_fetch_running_missing_blocks, with_block, last_of_range,
  get_l2_blocks_latest_height,
}
use scroll.L2Watcher.Runs.{
  IsNumbered, get_and_store_blocks-IsRun, last_of_range-cases, latest-length,
}

-- Every block can be fetched with its row consumption and withdraw root and has a size, and no
-- insert fails.
pub record IsServing (client : Client) : Type 0 where
  pub fetched :
      (n : ℕ)
      → (b : Block) × (with_block client n (client.get_block n) ≡ ok b)
        × (size : ℕ) × (estimate_block_size client.marshaller b ≡ ok size)
  pub inserted : (blocks : List Block) → client.insert_fails blocks ≡ false

fetch_blocks-total :
    (client : Client) (from n : ℕ)
    → IsServing client
    → (blocks : List Block) × (fetch_blocks client from n ≡ ok blocks)
      × (sizes : List ℕ) × (estimate_sizes client.marshaller blocks ≡ ok sizes)
unfolding fetch_blocks estimate_sizes
fetch_blocks-total client from zero k = ([], refl, [], refl)
fetch_blocks-total client from (suc n) k =
    let (b, got, size, measured) = k.fetched from in
    let (blocks, more, sizes, all) = fetch_blocks-total client (suc from) n k in
    (b ∷ blocks, rw (got, more) refl, size ∷ sizes, rw (measured, all) refl)

store_blocks-total :
    (client : Client) (blocks table : List Block) (sizes : List ℕ)
    → IsServing client
    → estimate_sizes client.marshaller blocks ≡ ok sizes
    → (stored : List Block) × (store_blocks client blocks table ≡ ok stored)
unfolding store_blocks insert_l2_blocks
store_blocks-total client [] table sizes k e = (table, refl)
store_blocks-total client (b ∷ bs) table sizes k e =
    (table ++ b ∷ bs, rw (e, k.inserted (b ∷ bs)) refl)

get_and_store_blocks-total :
    (client : Client) (from to : ℕ) (table : List Block)
    → IsServing client
    → (stored : List Block) × (get_and_store_blocks client from to table ≡ ok stored)
unfolding get_and_store_blocks
get_and_store_blocks-total client from to table k =
    let (blocks, got, sizes, all) = fetch_blocks-total client from (suc to - from) k in
    let (stored, done) = store_blocks-total client blocks table sizes k all in
    (stored, rw (got, done) refl)

-- Where the loop stands in front of a round.
abbrev IsAt : ℕ → ℕ → List Block → Type 0
IsAt from height table =
    ((from ≡ suc (length table)) × (length table ≤ height))
    ⊎ ((height < from) × (length table ≡ height))

IsAt-next :
    (from height : ℕ) (table stored : List Block)
    → height + 20 < u64_mod
    → from ≤ height
    → from ≡ suc (length table)
    → length stored ≡ length table + (suc (last_of_range from height) - from)
    → IsAt (add64 from 10) height stored
IsAt-next from height table stored small less same count =
    let (moved, ends) = last_of_range-cases from height small less in
    elim ends [
      | inl e ↦ inl (omega (arith, moved, e.0, count, same), omega (arith, e.0, e.1, count, same))
      | inr e ↦ inr (omega (arith, moved, e.1), omega (arith, e.0, count, same, less))
    ]

fetch_ranges-length :
    (client : Client) (n from height : ℕ) (table : List Block)
    → IsNumbered client
    → IsServing client
    → height + 20 < u64_mod
    → height < from + n
    → IsAt from height table
    → IsRun 1 table
    → length (fetch_ranges client n from height table) ≡ height
unfolding fetch_ranges
fetch_ranges-length client zero from height table num k small fuel at run = ground arith
fetch_ranges-length client (suc n) from height table num k small fuel at run =
    if_both (λ (t : List Block). length t ≡ height) (leb from height)
      (λ t.
        let less : from ≤ height = ground arith in
        let same : from ≡ suc (length table) = ground arith in
        let (stored, done) =
          get_and_store_blocks-total client from (last_of_range from height) table k in
        let (r, count) =
          get_and_store_blocks-IsRun client from (last_of_range from height) table stored num run
            same done in
        let moved = (last_of_range-cases from height small less).0 in
        let rest =
          fetch_ranges-length client n (add64 from 10) height stored num k small
            (omega (arith, moved, fuel)) (IsAt-next from height table stored small less same count)
            r in
        subst
          (λ (r : Outcome WatchError (List Block)).
            length (elim r [
              | ok stored ↦ fetch_ranges client n (add64 from 10) height stored
              | err e ↦ table
            ])
            ≡ height)
          (sym done) rest)
      (λ f. stay f)
  where
    stay : leb from height ≡ false → length table ≡ height
    stay f = elim at [ inl e ↦ ground arith | inr e ↦ e.1 ]

-- If the client returns each block under its own number and every request and insert succeeds, the
-- table holds the blocks from 1 on one by one up to a height that is not above the given one, and
-- the given one does not come near the largest uint64, then the table has as many blocks as the
-- given height behind a call of TryFetchRunningMissingBlocks.
pub try_fetch-length :
    (client : Client) (height : ℕ) (table : List Block)
    → IsNumbered client
    → IsServing client
    → height + 20 < u64_mod
    → length table ≤ height
    → IsRun 1 table
    → length (try_fetch_running_missing_blocks client true height table) ≡ height
unfolding try_fetch_running_missing_blocks
try_fetch-length client height table num k small low run =
    fetch_ranges-length client (suc height) (add64 (get_l2_blocks_latest_height table) 1) height
      table num k small (omega arith)
      (inl (omega (arith, latest-length table run, low, small), low)) run

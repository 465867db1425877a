-- ===== src/L2Watcher/Runs.antt =====
-- The blocks in the table of the layer 2 watcher:
-- rollup/internal/controller/watcher/l2_watcher.go.
use scroll.Common.{
  ℕ, zero, suc, ◌+◌, ◌-◌, ◌≡◌, ◌≤◌, ◌<◌, refl, sym, ap, ◌∙◌, subst, Bool, true, false, Option, some,
  none, List, [], ◌∷◌, ◌++◌, length, length-append, if◌then◌else◌, append-nil, add64, ◌⊎◌, inl, inr,
  Outcome, ok, err, >>=-eq-ok, ok-injective, arith, if_both, u64_mod, leb, ltb,
}
use scroll.Encoding.{Block, SubCircuit}
use scroll.Proposer.Limits.{IsRun}
use scroll.L2Watcher.{
  Client, RemoteBlock, WatchError, fetch_blocks, store_blocks, estimate_sizes, insert_l2_blocks,
  get_and_store_blocks, get_l2_blocks_latest_height, fetch_ranges, try_fetch_running_missing_blocks,
  with_block, with_rows, with_withdraw_root, last_of_range,
}

-- The client returns a block under its own number.
abbrev pub IsNumbered : Client → Type 0
IsNumbered client =
    (n : ℕ) (block : RemoteBlock) → client.get_block n ≡ some block → block.header.number ≡ n

IsRun-append :
    (h : ℕ) (xs ys : List Block) → IsRun h xs → IsRun (h + length xs) ys → IsRun h (xs ++ ys)
IsRun-append h [] ys r s = subst (λ k. IsRun k ys) (omega arith) s
IsRun-append h (x ∷ xs) ys r s =
    (r.0, IsRun-append (suc h) xs ys r.1 (subst (λ k. IsRun k ys) (omega arith) s))

with_block-number :
    (client : Client) (n : ℕ) (found : Option RemoteBlock) (b : Block)
    → IsNumbered client
    → client.get_block n ≡ found
    → with_block client n found ≡ ok b
    → b.header.number ≡ n
with_block-number client n none b num g e = absurd (cc)
with_block-number client n (some block) b num g e = rows block.row_consumption e ∙ num n block g
  where
    root :
        (rows : List SubCircuit) (r : Option ℕ)
        → with_withdraw_root client block rows r ≡ ok b
        → b.header.number ≡ block.header.number
    root rows none e = absurd (cc)
    root rows (some r) e = sym (ap (λ (x : Block). x.header.number) (ok-injective e))

    rows :
        (c : Option (List SubCircuit))
        → with_rows client n block c ≡ ok b
        → b.header.number ≡ block.header.number
    rows none e = absurd (cc)
    rows (some c) e = root c (client.withdraw_root_at n) e

fetch_blocks-IsRun :
    (client : Client) (from n : ℕ) (blocks : List Block)
    → IsNumbered client
    → fetch_blocks client from n ≡ ok blocks
    → IsRun from blocks × (length blocks ≡ n)
unfolding fetch_blocks
fetch_blocks-IsRun client from zero blocks num e =
    let empty : [] ≡ blocks = ok-injective e in (subst (IsRun from) empty tt, sym (ap length empty))
fetch_blocks-IsRun client from (suc n) blocks num e =
    let (b, got, e1) = >>=-eq-ok (with_block client from (client.get_block from)) _ e in
    let (rest, more, out) = >>=-eq-ok (fetch_blocks client (suc from) n) _ e1 in
    let (run, count) = fetch_blocks-IsRun client (suc from) n rest num more in
    let whole : b ∷ rest ≡ blocks = ok-injective out in
    (
      subst (IsRun from) whole
          (with_block-number client from (client.get_block from) b num refl got, run),
      sym (ap length whole) ∙ ap suc count,
    )

store_blocks-append :
    (client : Client) (blocks table stored : List Block)
    → store_blocks client blocks table ≡ ok stored
    → stored ≡ table ++ blocks
unfolding store_blocks insert_l2_blocks
store_blocks-append client [] table stored e = sym (append-nil table ∙ ok-injective e)
store_blocks-append client (b ∷ bs) table stored e =
    let (sizes, measured, out) = >>=-eq-ok (estimate_sizes client.marshaller (b ∷ bs)) _ e in
    inserted out
  where
    inserted : insert_l2_blocks client (b ∷ bs) table ≡ ok stored → stored ≡ table ++ b ∷ bs
    inserted e = ground arith

latest-IsRun :
    (h : ℕ) (b : Block) (table : List Block)
    → IsRun h (b ∷ table)
    → get_l2_blocks_latest_height (b ∷ table) ≡ h + length table
unfolding get_l2_blocks_latest_height
latest-IsRun h b [] r = let n = r.0 in ground arith
latest-IsRun h b (c ∷ cs) r =
    let rest = latest-IsRun (suc h) c cs r.1 in
    greatest (get_l2_blocks_latest_height (c ∷ cs)) b.header.number (h + suc (length cs))
      (omega (arith, r.0, rest)) (omega (arith, rest))
  where
    greatest : (m n t : ℕ) → n ≤ m → m ≡ t → (if ltb m n then n else m) ≡ t
    greatest m n t less same = ground arith

pub get_and_store_blocks-IsRun :
    (client : Client) (from to : ℕ) (table stored : List Block)
    → IsNumbered client
    → IsRun 1 table
    → from ≡ suc (length table)
    → get_and_store_blocks client from to table ≡ ok stored
    → IsRun 1 stored × (length stored ≡ length table + (suc to - from))
unfolding get_and_store_blocks
get_and_store_blocks-IsRun client from to table stored num run next e =
    let (blocks, got, e1) = >>=-eq-ok (fetch_blocks client from (suc to - from)) _ e in
    let (behind, count) = fetch_blocks-IsRun client from (suc to - from) blocks num got in
    let whole = store_blocks-append client blocks table stored e1 in
    (
      subst (IsRun 1) (sym whole) (
          IsRun-append 1 table blocks run
            (subst (λ k. IsRun k blocks) (omega (arith, next)) behind)),
      omega (arith, ap length whole, length-append table blocks, count),
    )

pub latest-length :
    (table : List Block) → IsRun 1 table → get_l2_blocks_latest_height table ≡ length table
unfolding get_l2_blocks_latest_height
latest-length [] run = refl
latest-length (b ∷ bs) run = omega (arith, latest-IsRun 1 b bs run)

pub last_of_range-cases :
    (from height : ℕ)
    → height + 20 < u64_mod
    → from ≤ height
    → (add64 from 10 ≡ from + 10)
      × (((last_of_range from height ≡ from + 9) × (from + 9 ≤ height))
          ⊎ ((last_of_range from height ≡ height) × (height < from + 10)))
last_of_range-cases from height small less = (omega arith, ground arith)

fetch_ranges-IsRun :
    (client : Client) (n from height : ℕ) (table : List Block)
    → IsNumbered client
    → height + 20 < u64_mod
    → (from ≡ suc (length table)) ⊎ (height < from)
    → IsRun 1 table
    → IsRun 1 (fetch_ranges client n from height table)
unfolding fetch_ranges
fetch_ranges-IsRun client zero from height table num small at run = run
fetch_ranges-IsRun client (suc n) from height table num small at run =
    if_both (IsRun 1) (leb from height)
      (in_range
        (λ stored at r. fetch_ranges-IsRun client n (add64 from 10) height stored num small at r))
      (λ f. run)
  where
    next :
        (stored : List Block)
        → from ≤ height
        → length stored ≡ length table + (suc (last_of_range from height) - from)
        → from ≡ suc (length table)
        → (add64 from 10 ≡ suc (length stored)) ⊎ (height < add64 from 10)
    next stored less count same =
        let (moved, ends) = last_of_range-cases from height small less in
        elim ends [
          | inl e ↦ inl (omega (arith, moved, e.0, count, same))
          | inr e ↦ inr (omega (arith, moved, e.1))
        ]

    stored_or_not :
        (later : (stored : List Block)
          → (add64 from 10 ≡ suc (length stored)) ⊎ (height < add64 from 10)
          → IsRun 1 stored
          → IsRun 1 (fetch_ranges client n (add64 from 10) height stored))
        (r : Outcome WatchError (List Block))
        → from ≤ height
        → from ≡ suc (length table)
        → get_and_store_blocks client from (last_of_range from height) table ≡ r
        → IsRun 1 (elim r [
          | ok stored ↦ fetch_ranges client n (add64 from 10) height stored
          | err e ↦ table
        ])
    stored_or_not later (err e) less same got = run
    stored_or_not later (ok stored) less same got =
        let (r, count) =
          get_and_store_blocks-IsRun client from (last_of_range from height) table stored num run
            same got in
        later stored (next stored less count same) r

    in_range :
        (later : (stored : List Block)
          → (add64 from 10 ≡ suc (length stored)) ⊎ (height < add64 from 10)
          → IsRun 1 stored
          → IsRun 1 (fetch_ranges client n (add64 from 10) height stored))
        → leb from height ≡ true
        → IsRun 1 (elim (get_and_store_blocks client from (last_of_range from height) table) [
          | ok stored ↦ fetch_ranges client n (add64 from 10) height stored
          | err e ↦ table
        ])
    in_range later t =
        let less : from ≤ height = ground arith in
        stored_or_not later (get_and_store_blocks client from (last_of_range from height) table)
          less (elim at [ inl same ↦ same | inr over ↦ absurd (omega (arith, over, less)) ]) refl

-- If the client returns each block under its own number, the table holds the blocks from 1 on
-- one by one, and neither the height nor the table comes near the largest uint64, then the table
-- holds the blocks from 1 on one by one behind a call of TryFetchRunningMissingBlocks, whichever
-- reads, requests and inserts fail: no block is left out and none is stored twice.
pub try_fetch-IsRun :
    (client : Client) (readable : Bool) (height : ℕ) (table : List Block)
    → IsNumbered client
    → height + 20 < u64_mod
    → length table + 1 < u64_mod
    → IsRun 1 table
    → IsRun 1 (try_fetch_running_missing_blocks client readable height table)
unfolding try_fetch_running_missing_blocks
try_fetch-IsRun client false height table num small few run = run
try_fetch-IsRun client true height table num small few run =
    fetch_ranges-IsRun client (suc height) (add64 (get_l2_blocks_latest_height table) 1) height
      table num small (inl (omega (arith, latest-length table run, few))) run

-- ===== src/History/Reorgs.antt =====
-- How a fetcher finds a reorg and how far a tick comes:
-- bridge-history-api/internal/logic/{l1,l2}_fetcher.go and
-- bridge-history-api/internal/controller/fetcher/{l1,l2}_fetcher.go.
use scroll.Common.{
  ℕ, zero, suc, ◌+◌, ◌-◌, ◌≤◌, ◌<◌, ◌≡◌, ◌≢◌, refl, sym, ◌∙◌, ap, subst, true, false, Option, none,
  some, List, [], ◌∷◌, if◌then◌else◌, if_both, Bool-cases, inl, inr, arith, ◌==◌, ==_iff, ltb, leb,
  length, add64, sub64, ◌⊎◌,
}
use scroll.History.{Db, Run}
use scroll.History.Fetching.{
  Node, ChainBlock, Fetch, fetch_failed, reorged, fetched, get_blocks, detect_reorg,
  get_blocks_and_detect_reorg, resync, resync_height,
}
use scroll.History.Reports.{bind_option-eq-some, some-injective}
use scroll.History.Fetchers.{
  FetcherState, range_end, saved, continue_with, round, fetch_from, fetch_and_save_events,
}

-- Each block's parent is the block before it; the first follows `last`, and the last is `hash`.
abbrev pub IsLinked : ℕ → List ChainBlock → ℕ → Type 0
IsLinked last [] hash = last ≡ hash
IsLinked last (b ∷ bs) hash = (b.parent_hash ≡ last) × IsLinked b.block_hash bs hash

module _ (node : Node) where
  -- The node's blocks of a range.
  abbrev pub AreBlocks : ℕ → List ChainBlock → Type 0
  AreBlocks from [] = Unit
  AreBlocks from (b ∷ bs) = (node.block_by_number from ≡ some b) × AreBlocks (suc from) bs

  abbrev pub IsBroken : ℕ → List ChainBlock → ChainBlock → Type 0
  IsBroken last [] bad = ⊥
  IsBroken last (b ∷ bs) bad =
      ((b.parent_hash ≢ last) × (b ≡ bad)) ⊎ ((b.parent_hash ≡ last) × IsBroken b.block_hash bs bad)

  get_blocks-AreBlocks :
      (from n : ℕ) (blocks : List ChainBlock)
      → get_blocks node from n ≡ some blocks
      → AreBlocks from blocks × (length blocks ≡ n)
  unfolding get_blocks
  get_blocks-AreBlocks from zero blocks e =
      subst (λ bs. AreBlocks from bs × (length bs ≡ 0)) (some-injective e) (tt, refl)
  get_blocks-AreBlocks from (suc n) blocks e =
      let (b, e1, run1) = bind_option-eq-some (node.block_by_number from) _ e in
      let (rest, e2, run2) = bind_option-eq-some (get_blocks node (suc from) n) _ run1 in
      let (are, long) = get_blocks-AreBlocks (suc from) n rest e2 in
      subst (λ bs. AreBlocks from bs × (length bs ≡ suc n)) (some-injective run2)
        ((e1, are), ap suc long)

  -- A height that lies the safe depth before the parent of a block, or 0 below that.
  abbrev pub IsBehind : ℕ → ℕ → ℕ → Type 0
  IsBehind depth number height =
      (height + depth + 1 ≡ number) ⊎ ((height ≡ 0) × (number ≤ depth + 1))

  resync_height-IsBehind :
      (depth number : ℕ) → IsBehind depth number (resync_height node depth number)
  resync_height-IsBehind depth number =
      if_both (IsBehind depth number) (ltb (depth + 1) number)
        (λ t. let far : depth + 1 < number = ground arith in inl (omega arith))
        (λ f. let near : number ≤ depth + 1 = ground arith in inr (refl, near))

  -- What a check of blocks finds: a linked chain, or the first block whose parent is another one.
  abbrev pub Judged : ℕ → ℕ → List ChainBlock → List ChainBlock → Fetch (List ChainBlock) → Type 0
  Judged depth last all bs fetch_failed =
      (bad : ChainBlock) × IsBroken last bs bad
      × (height : ℕ) × IsBehind depth bad.number height
      × (node.header_hash height ≡ none)
  Judged depth last all bs (fetched hash blocks) = (blocks ≡ all) × IsLinked last bs hash
  Judged depth last all bs (reorged height hash) =
      (bad : ChainBlock) × IsBroken last bs bad
      × IsBehind depth bad.number height
      × (node.header_hash height ≡ some hash)

  Judged-cons :
      (depth last : ℕ) (all bs : List ChainBlock) (b : ChainBlock) (f : Fetch (List ChainBlock))
      → b.parent_hash ≡ last
      → Judged depth b.block_hash all bs f
      → Judged depth last all (b ∷ bs) f
  Judged-cons depth last all bs b fetch_failed e (bad, broken, height, at, unknown) =
      (bad, inr (e, broken), height, at, unknown)
  Judged-cons depth last all bs b (fetched hash blocks) e (same, linked) = (same, (e, linked))
  Judged-cons depth last all bs b (reorged height hash) e (bad, broken, at, known) =
      (bad, inr (e, broken), at, known)

  Judged-bad :
      (depth last : ℕ) (all bs : List ChainBlock) (b : ChainBlock) (o : Option ℕ)
      → b.parent_hash ≢ last
      → node.header_hash (resync_height node depth b.number) ≡ o
      → Judged depth last all (b ∷ bs) (resync node (resync_height node depth b.number) o)
  Judged-bad depth last all bs b none n e = (
    b,
    inl (n, refl),
    resync_height node depth b.number,
    resync_height-IsBehind depth b.number,
    e,
  )
  Judged-bad depth last all bs b (some hash) n e =
      (b, inl (n, refl), resync_height-IsBehind depth b.number, e)

  detect_reorg-Judged :
      (depth : ℕ) (all bs : List ChainBlock) (last : ℕ)
      → Judged depth last all bs (detect_reorg node depth all bs last)
  unfolding detect_reorg
  detect_reorg-Judged depth all [] last = (refl, refl)
  detect_reorg-Judged depth all (b ∷ bs) last =
      if_both (Judged depth last all (b ∷ bs)) (b.parent_hash == last)
        (λ t.
          Judged-cons depth last all bs b (detect_reorg node depth all bs b.block_hash)
            ((==_iff b.parent_hash last).0 t) (detect_reorg-Judged depth all bs b.block_hash))
        (λ f.
          Judged-bad depth last all bs b (node.header_hash (resync_height node depth b.number))
            (λ e. absurd (ground arith)) refl)

  -- If the node has all blocks of a range, then getBlocksAndDetectReorg looks at just these, and one
  -- of three things holds: it returns them all, each one's parent is the block before it, the first
  -- follows the last synced hash, and the hash returned is that of the end of this chain; or it
  -- reports a reorg with the height that lies the safe depth before the parent of the first block
  -- that breaks the chain, or 0 if there is no such height above 0, and with the node's hash at this
  -- height; or it fails for that block, as the node has no header at the height.
  pub get_blocks_and_detect_reorg-Judged :
      (depth from to last : ℕ) (blocks : List ChainBlock)
      → get_blocks node from (to + 1 - from) ≡ some blocks
      → AreBlocks from blocks
        × (length blocks ≡ to + 1 - from)
        × Judged depth last blocks blocks (get_blocks_and_detect_reorg node depth from to last)
  unfolding get_blocks_and_detect_reorg
  get_blocks_and_detect_reorg-Judged depth from to last blocks e =
      let (are, long) = get_blocks-AreBlocks from (to + 1 - from) blocks e in
      (
        are,
        long,
        subst
            (λ (o : Option (List ChainBlock)).
              Judged depth last blocks blocks
                (elim o [ none ↦ fetch_failed | some bs ↦ detect_reorg node depth bs bs last ]))
            (sym e) (detect_reorg-Judged depth blocks blocks last),
      )

module _ {A : Type 0} (limit : ℕ) (fetch : ℕ → ℕ → ℕ → Fetch A) (save : ℕ → A → Db → Run)
    (hash_at : ℕ → ℕ) (end : ℕ) (Storable : A → Type 0) where
  saved-Reaches :
      (to hash : ℕ) (run : Run) (st : FetcherState)
      → run.1 ≡ none
      → saved limit fetch save to hash run st
        ≡ (record { sync_height = to; last_sync_block_hash = hash; db = run.0 }, true)
  saved-Reaches to hash (db, none) st e = refl
  saved-Reaches to hash (db, some why) st e = absurd (cc)

  range_end-bounds :
      (from : ℕ)
      → 0 < limit
      → end + limit < 18446744073709551616
      → 0 < from
      → from ≤ end
      → (from ≤ range_end limit fetch save from end)
        × (range_end limit fetch save from end ≤ end)
        × (((range_end limit fetch save from end ≡ end) × (end < from + limit))
            ⊎ (range_end limit fetch save from end + 1 ≡ from + limit))
  range_end-bounds from pos fits first low =
      let to = sub64 (add64 from limit) 1 in
      let at : to + 1 ≡ from + limit = omega arith in
      if_both
        (λ n.
          (from ≤ n) × (n ≤ end) × (((n ≡ end) × (end < from + limit)) ⊎ (n + 1 ≡ from + limit)))
        (ltb end to)
        (λ t. (low, omega arith, inl (refl, (let lt : end < to = ground arith in omega arith))))
        (λ f. let le : to ≤ end = ground arith in (omega arith, le, inr at))

  fetch_from-past :
      (fuel from : ℕ) (st : FetcherState)
      → end < from
      → fetch_from limit fetch save fuel from end st ≡ st
  unfolding fetch_from
  fetch_from-past zero from st past = refl
  fetch_from-past (suc fuel) from st past =
      let off : leb from end ≡ false = ground arith in rw off refl

  -- The synced height and hash are those of the end.
  abbrev IsDone : FetcherState → Type 0
  IsDone st = (st.sync_height ≡ end) × (st.last_sync_block_hash ≡ hash_at end)

  fetch_from-Reaches :
      (fuel : ℕ) (st : FetcherState)
      → 0 < limit
      → end + limit < 18446744073709551616
      → ((from to last : ℕ)
          → 0 < from
          → from ≤ to
          → to ≤ end
          → last ≡ hash_at (from - 1)
          → (a : A) × Storable a × (fetch from to last ≡ fetched (hash_at to) a))
      → ((h : ℕ) (a : A) (db : Db) → Storable a → (save h a db).1 ≡ none)
      → st.sync_height ≤ end
      → st.last_sync_block_hash ≡ hash_at st.sync_height
      → end - st.sync_height ≤ fuel
      → IsDone (fetch_from limit fetch save fuel (st.sync_height + 1) end st)
  unfolding fetch_from round
  fetch_from-Reaches zero st pos fits answers works low here enough =
      let at : st.sync_height ≡ end = omega arith in (at, here ∙ ap hash_at at)
  fetch_from-Reaches (suc fuel) st pos fits answers works low here enough =
      let from = st.sync_height + 1 in
      let to = range_end limit fetch save from end in
      elim (Bool-cases (leb from end)) [
        | inr f ↦ let at : st.sync_height ≡ end = ground arith in rw f (at, here ∙ ap hash_at at)
        | inl t ↦
            let within : from ≤ end = ground arith in
            let (above, below, next) = range_end-bounds from pos fits (omega arith) within in
            let before : st.sync_height ≡ from - 1 = omega arith in
            let (a, storable, got) =
              answers from to st.last_sync_block_hash (omega arith) above below
                (here ∙ ap hash_at before) in
            let run = save st.sync_height a st.db in
            let after : FetcherState = record {
              sync_height = to;
              last_sync_block_hash = hash_at to;
              db = run.0;
            } in
            let went =
              ap (λ r. round limit fetch save to r st) got
              ∙ saved-Reaches to (hash_at to) run st (works st.sync_height a st.db storable) in
            let step : add64 from limit ≡ from + limit = omega arith in
            let more = fetch_from limit fetch save fuel in
            let rest : IsDone (more (from + limit) end after) = elim next [
              | inl done ↦
                  subst IsDone (sym (fetch_from-past fuel (from + limit) after done.1))
                    (done.0, ap hash_at done.0)
              | inr again ↦
                  subst (λ n. IsDone (more n end after)) again
                    (fetch_from-Reaches fuel after pos fits answers works below refl (omega arith))
            ] in
            let reached =
              subst (λ r. IsDone (continue_with limit fetch save (more (add64 from limit) end) r))
                (sym went) (subst (λ n. IsDone (more n end after)) (sym step) rest) in
            subst
              (λ b. IsDone (
                if b
                then continue_with limit fetch save (more (add64 from limit) end)
                    (round limit fetch save to (fetch from to st.last_sync_block_hash) st)
                else st))
              (sym t) reached
      ]

  -- A tick whose ranges are all fetched with results that can be saved ends with the end synced.
  pub fetch_and_save_events-Reaches :
      (st : FetcherState)
      → 0 < limit
      → end + limit < 18446744073709551616
      → ((from to last : ℕ)
          → 0 < from
          → from ≤ to
          → to ≤ end
          → last ≡ hash_at (from - 1)
          → (a : A) × Storable a × (fetch from to last ≡ fetched (hash_at to) a))
      → ((h : ℕ) (a : A) (db : Db) → Storable a → (save h a db).1 ≡ none)
      → st.sync_height ≤ end
      → st.last_sync_block_hash ≡ hash_at st.sync_height
      → IsDone (fetch_and_save_events limit fetch save (some end) st)
  unfolding fetch_and_save_events
  fetch_and_save_events-Reaches st pos fits answers works low here =
      let next : add64 st.sync_height 1 ≡ st.sync_height + 1 = omega arith in
      rw next (
        fetch_from-Reaches (end + 1 - (st.sync_height + 1)) st pos fits answers works low here
          (omega arith))

-- ===== src/L1Oracle/Imports.antt =====
-- When a base fee is imported: rollup/internal/controller/relayer/l1_relayer.go.
use scroll.Common.{
  ℕ, ◌≤◌, ◌≡◌, ◌⊎◌, refl, sym, subst, inl, inr, Bool, true, false, ◌&&◌, Option, none, some, List,
  [], ◌∷◌, All, arith, ltb, ◌==◌, ==_iff, if◌then◌else◌, if_both, select,
}
use scroll.Relayer.{Tx}
use scroll.Relayer.GasOracle.{is_oracle_pending, is_sent}
use scroll.Relayer.Fetched.{In, All-In, All-weaken, All-select}
use scroll.L1Oracle.{
  L1Block, L1State, Env, get_latest_l1_block_height, get_l1_blocks, base_fee_tx, after_sent,
  after_packed, import_base_fee, process_l1_gas_price_oracle,
}

-- The base fee of the highest block was sent: the block was pending, and the price had moved.
pub record IsImporting (env : Env) (st st' : L1State) : Type 0 where
  pub block : L1Block
  pub is_block : In block st.blocks
  pub highest : All (λ (b : L1Block). b.number ≤ block.number) st.blocks
  pub pending : is_oracle_pending block.gas_oracle_status ≡ true
  pub moved : is_sent env.min_gas_price env.gas_price_diff st.last_gas_price block.base_fee ≡ true
  pub bytes : List ℕ
  pub packed : env.pack block.base_fee ≡ some bytes
  pub sent : st'.sent ≡ base_fee_tx block bytes ∷ st.sent

height-le : (bs : List L1Block) → All (λ (b : L1Block). b.number ≤ get_latest_l1_block_height bs) bs
unfolding get_latest_l1_block_height
height-le [] = tt
height-le (b ∷ bs) =
    let rest = get_latest_l1_block_height bs in
    let next = if ltb rest b.number then b.number else rest in
    let own : b.number ≤ next = ground arith in
    let more : rest ≤ next = ground arith in
    (
      own,
      All-weaken (λ c. c.number ≤ rest) (λ c. c.number ≤ next) (λ c h. omega arith) bs
          (height-le bs),
    )

get_l1_blocks-All :
    (number : ℕ) (bs : List L1Block)
    → All (λ (b : L1Block). In b bs × (b.number ≡ number)) (get_l1_blocks number bs)
unfolding get_l1_blocks
get_l1_blocks-All number bs =
    let test : L1Block → Bool = λ b. b.number == number in
    All-weaken (λ b. In b bs × (test b ≡ true)) (λ b. In b bs × (b.number ≡ number))
      (λ b h. (h.0, (==_iff b.number number).0 h.1)) (select test bs)
      (All-select (λ b. In b bs) test bs (All-In bs))

module _ (env : Env) where
  after_sent-cases :
      (o : Option ℕ) (fails : Bool) (b : L1Block) (tx : Tx) (st : L1State)
      → (after_sent o fails b tx st ≡ st) ⊎ ((after_sent o fails b tx st).sent ≡ tx ∷ st.sent)
  after_sent-cases none fails b tx st = inl refl
  after_sent-cases (some tx_hash) true b tx st = inr refl
  after_sent-cases (some tx_hash) false b tx st = inr refl

  after_packed-cases :
      (o : Option (List ℕ)) (b : L1Block) (st : L1State)
      → (after_packed env o b st ≡ st)
        ⊎ ((bytes : List ℕ) × ((o ≡ some bytes)
              × ((after_packed env o b st).sent ≡ base_fee_tx b bytes ∷ st.sent)))
  after_packed-cases none b st = inl refl
  after_packed-cases (some bytes) b st =
      let tx = base_fee_tx b bytes in
      elim (after_sent-cases (env.send_transaction tx) env.update_fails b tx st) [
        | inl same ↦ inl same
        | inr sent ↦ inr (bytes, (refl, sent))
      ]

  import_base_fee-IsImporting :
      (bs : List L1Block) (st : L1State)
      → All (λ (b : L1Block). In b st.blocks × (b.number ≡ get_latest_l1_block_height st.blocks)) bs
      → (import_base_fee env bs st ≡ st) ⊎ IsImporting env st (import_base_fee env bs st)
  unfolding import_base_fee
  import_base_fee-IsImporting [] st a = inl refl
  import_base_fee-IsImporting (b ∷ c ∷ bs) st a = inl refl
  import_base_fee-IsImporting (b ∷ []) st a =
      let moved = is_sent env.min_gas_price env.gas_price_diff st.last_gas_price b.base_fee in
      if_both (λ s. (s ≡ st) ⊎ IsImporting env st s)
        (is_oracle_pending b.gas_oracle_status && moved)
        (λ t.
          let first : is_oracle_pending b.gas_oracle_status ≡ true = ground arith in
          let second : moved ≡ true = ground arith in
          elim (after_packed-cases (env.pack b.base_fee) b st) [
            | inl same ↦ inl same
            | inr (bytes, (packed, sent)) ↦ inr (record {
              block = b;
              is_block = a.0.0;
              highest =
                  subst (λ n. All (λ (x : L1Block). x.number ≤ n) st.blocks) (sym a.0.1)
                    (height-le st.blocks);
              pending = first;
              moved = second;
              bytes = bytes;
              packed = packed;
              sent = sent;
            })
          ])
        (λ f. inl refl)

  -- ProcessGasPriceOracle of the layer 1 relayer leaves the state as it is, or sends the base fee
  -- of a block of the table that no other block is above; the block was pending, and its base fee
  -- passed the test against the last price.
  pub process-IsImporting :
      (st : L1State)
      → (process_l1_gas_price_oracle env st ≡ st)
        ⊎ IsImporting env st (process_l1_gas_price_oracle env st)
  unfolding process_l1_gas_price_oracle
  process-IsImporting st =
      let height = get_latest_l1_block_height st.blocks in
      if_both (λ s. (s ≡ st) ⊎ IsImporting env st s) env.reads_fail (λ t. inl refl)
        (λ f.
          import_base_fee-IsImporting (get_l1_blocks height st.blocks) st
            (get_l1_blocks-All height st.blocks))

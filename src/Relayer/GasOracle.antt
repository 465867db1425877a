-- ===== src/Relayer/GasOracle.antt =====
-- ProcessGasPriceOracle: rollup/internal/controller/relayer/l2_relayer.go, and its decision, which
-- rollup/internal/controller/relayer/l1_relayer.go has in the same words.
use scroll.Common.{
  ℕ, ◌/◌, Bool, true, false, ◌&&◌, ◌||◌, Option, none, some, List, ltb, leb, ◌==◌, if◌then◌else◌,
  u64, add64, sub64, mul64,
}
use scroll.Relayer.{
  Batch, State, Tx, Env, set_l2_base_fee, GasOracleStatus, gas_oracle_pending, gas_oracle_importing,
  sender_l2_gas_oracle, Round, attempt, fetch, send, get_latest_batch, update_status, query_failed,
  batch_not_found,
}
use scroll.Relayer.Payloads.{found}
use scroll.Relayer.Tables.{get_latest_batch_row, update_l2_gas_oracle_status_and_oracle_tx_hash}

-- gasPriceDiffPrecision
abbrev pub gas_price_diff_precision : ℕ
gas_price_diff_precision = 1000000

unfoldable pub expected_delta : ℕ → ℕ → ℕ
expected_delta last diff =
    let delta = mul64 last diff / gas_price_diff_precision in
    if ltb 0 last && delta == 0 then 1 else delta

-- Whether a price is sent, from the least price, the difference in millionths and the last price.
unfoldable pub is_sent : ℕ → ℕ → ℕ → ℕ → Bool
unfolding expected_delta
is_sent min_price diff last price =
    (last == 0)
    || (leb min_price price
        && (leb (add64 last (expected_delta last diff)) price
            || leb price (sub64 last (expected_delta last diff))))

abbrev pub is_oracle_pending : GasOracleStatus → Bool
is_oracle_pending s = elim s [ gas_oracle_pending ↦ true | _ ↦ false ]

abbrev pub oracle_tx : Batch → List ℕ → Tx
oracle_tx b bytes = record {
  sender_type = sender_l2_gas_oracle;
  context_id = b.hash;
  data_bytes = bytes;
  blob = none;
  fallback_gas_limit = 0;
}

abbrev pub set_last_gas_price : ℕ → Round → Round
set_last_gas_price price (none, st) = (none, record st { last_gas_price = price })
set_last_gas_price price (some e, st) = (some e, st)

module _ (env : Env) where
  -- The price is sent and becomes the last price.
  unfoldable pub send_price : Batch → ℕ → ℕ → State → Round
  unfolding update_l2_gas_oracle_status_and_oracle_tx_hash
  send_price b suggested price st =
      attempt (found (env.pack (set_l2_base_fee suggested))) st (λ bytes. set_last_gas_price price (
        send (env.send_transaction (oracle_tx b bytes)) (env.fails update_status b.hash)
          (oracle_tx b bytes)
          (update_l2_gas_oracle_status_and_oracle_tx_hash b.hash gas_oracle_importing) st))

  -- The part behind the suggested price, of which the code takes 64 bits.
  unfoldable pub import_price : Batch → Option ℕ → State → Round
  unfolding is_sent send_price
  import_price b none st = (some query_failed, st)
  import_price b (some suggested) st =
      if is_sent env.min_gas_price env.gas_price_diff st.last_gas_price (u64 suggested)
      then send_price b suggested (u64 suggested) st
      else (none, st)

  unfoldable pub import_latest : Option Batch → State → Round
  unfolding import_price
  import_latest none st = (some batch_not_found, st)
  import_latest (some b) st =
      if is_oracle_pending b.oracle_status
      then import_price b env.suggest_gas_price st
      else (none, st)

  -- ProcessGasPriceOracle
  unfoldable pub process_gas_price_oracle : State → Round
  unfolding get_latest_batch_row import_latest
  process_gas_price_oracle st =
      fetch (env.fails get_latest_batch 0) st
        (import_latest (get_latest_batch_row none st.db.batches) st)

-- ===== src/Relayer/KeptPrices.antt =====
-- ProcessGasPriceOracle keeps the relayer's state sound:
-- rollup/internal/controller/relayer/l2_relayer.go.
use scroll.Common.{ℕ, ◌≡◌, ap, Option, some, none, ◌∷◌, u64, Outcome, ok, err, if_both}
use scroll.Relayer.{
  RelayerError, attempt, set_l2_base_fee, sender_l2_gas_oracle, Batch, State, Env, Round, send,
  get_latest_batch, update_status, gas_oracle_importing,
}
use scroll.Relayer.Tables.{get_latest_batch_row, update_l2_gas_oracle_status_and_oracle_tx_hash}
use scroll.Relayer.Payloads.{found}
use scroll.Relayer.GasOracle.{
  oracle_tx, is_oracle_pending, is_sent, set_last_gas_price, send_price, import_price,
  import_latest, process_gas_price_oracle,
}
use scroll.Relayer.Rounds.{send-IsRound}
use scroll.Relayer.Sound.{IsSound, update_oracle-IsBacked, IsRound-IsSound}
use scroll.Relayer.Kept.{fetch-IsSound}

set_last-IsSound : (price : ℕ) (r : Round) → IsSound r.1 → IsSound (set_last_gas_price price r).1
set_last-IsSound price (none, st) k = record { rows = k.rows; ordered = k.ordered }
set_last-IsSound price (some e, st) k = k

attempt-IsSound :
    {A : Type 0} (r : Outcome RelayerError A) (st : State) (next : A → Round)
    → IsSound st
    → ((a : A) → IsSound (next a).1)
    → IsSound (attempt r st next).1
attempt-IsSound (err e) st next k f = k
attempt-IsSound (ok a) st next k f = f a

send_price-IsSound :
    (env : Env) (b : Batch) (suggested price : ℕ) (st : State)
    → IsSound st
    → IsSound (send_price env b suggested price st).1
unfolding send_price
send_price-IsSound env b suggested price st k =
    attempt-IsSound (found (env.pack (set_l2_base_fee suggested))) st _ k (λ bytes.
      let tx = oracle_tx b bytes in
      let write = update_l2_gas_oracle_status_and_oracle_tx_hash b.hash gas_oracle_importing in
      let r = send (env.send_transaction tx) (env.fails update_status b.hash) tx write st in
      set_last-IsSound price r (
        IsRound-IsSound (λ t. t ≡ tx) write st r.1 k
          (λ t same.
            let kind : t.sender_type ≡ sender_l2_gas_oracle = ap (λ x. x.sender_type) same in
            (
              λ f. absurd (cc),
              λ tx_hash rows.
                  update_oracle-IsBacked (t ∷ st.sent) b.hash gas_oracle_importing tx_hash
                    st.db.batches rows,
            ))
          (send-IsRound (env.send_transaction tx) (env.fails update_status b.hash) tx write st)))

import_latest-IsSound :
    (env : Env) (o : Option Batch) (st : State) → IsSound st → IsSound (import_latest env o st).1
unfolding import_latest import_price
import_latest-IsSound env none st k = k
import_latest-IsSound env (some b) st k =
    if_both (λ (r : Round). IsSound r.1) (is_oracle_pending b.oracle_status)
      (λ e. at_price env.suggest_gas_price) (λ e. k)
  where
    at_price : (o : Option ℕ) → IsSound (import_price env b o st).1
    at_price none = k
    at_price (some suggested) =
        if_both (λ (r : Round). IsSound r.1)
          (is_sent env.min_gas_price env.gas_price_diff st.last_gas_price (u64 suggested))
          (λ e. send_price-IsSound env b suggested (u64 suggested) st k) (λ e. k)

pub process_gas_price-IsSound :
    (env : Env) (st : State) → IsSound st → IsSound (process_gas_price_oracle env st).1
unfolding process_gas_price_oracle
process_gas_price-IsSound env st k =
    let o = get_latest_batch_row none st.db.batches in
    fetch-IsSound (env.fails get_latest_batch 0) st (import_latest env o st) k
      (import_latest-IsSound env o st k)

-- ===== src/Sender/Fees.antt =====
-- Fees: rollup/internal/controller/sender/estimategas.go and resubmitTransaction of
-- rollup/internal/controller/sender/sender.go.
use scroll.Common.{ℕ, ◌+◌, ◌*◌, ◌/◌, Option, none, some, List, ltb, ◌==◌, if◌then◌else◌, mul64}
use scroll.Sender.{legacy_tx, dynamic_fee_tx, Config, FeeData, Transaction, Client}

-- getGasFeeCap
unfoldable pub get_gas_fee_cap : ℕ → ℕ → ℕ
get_gas_fee_cap base_fee gas_tip_cap = base_fee * 2 + gas_tip_cap

-- getBlobGasFeeCap
unfoldable pub get_blob_gas_fee_cap : ℕ → ℕ
get_blob_gas_fee_cap blob_base_fee = blob_base_fee * 2

-- `if a.Cmp(b) < 0 { a = b }` and `if a.Cmp(b) > 0 { a = b }`
abbrev pub at_least : ℕ → ℕ → ℕ
at_least b a = if ltb a b then b else a

abbrev pub at_most : ℕ → ℕ → ℕ
at_most b a = if ltb b a then b else a

-- The corner case: a fee that did not change gets 1 wei more.
abbrev pub add_wei : ℕ → ℕ → ℕ
add_wei original fee = if original == fee then fee + 1 else fee

abbrev pub escalate : Config → ℕ → ℕ
escalate cfg fee = fee * cfg.escalate_multiple_num / cfg.escalate_multiple_den

-- The price of a resubmitted legacy transaction.
unfoldable pub bump_legacy : Config → FeeData → FeeData
bump_legacy cfg f = record f {
  gas_price = add_wei f.gas_price (at_most cfg.max_gas_price (escalate cfg f.gas_price));
}

-- The caps before the corner case.
unfoldable pub adjusted_fee_cap : Config → ℕ → ℕ → ℕ → ℕ
unfolding get_gas_fee_cap
adjusted_fee_cap cfg base_fee tip fee =
    at_most cfg.max_gas_price (at_least (get_gas_fee_cap base_fee tip) fee)

-- A resubmitted transaction with dynamic fees and without a blob.
unfoldable pub bump_dynamic : Config → ℕ → FeeData → FeeData
unfolding adjusted_fee_cap
bump_dynamic cfg base_fee f =
    let tip = escalate cfg f.gas_tip_cap in
    let fee = adjusted_fee_cap cfg base_fee tip (escalate cfg f.gas_fee_cap) in
    record f {
      gas_tip_cap = add_wei f.gas_tip_cap (at_most fee tip);
      gas_fee_cap = add_wei f.gas_fee_cap fee;
    }

-- A resubmitted blob transaction.
unfoldable pub bump_blob : Config → ℕ → ℕ → FeeData → FeeData
unfolding adjusted_fee_cap get_blob_gas_fee_cap
bump_blob cfg base_fee blob_base_fee f =
    let tip = f.gas_tip_cap * 2 in
    let fee = adjusted_fee_cap cfg base_fee tip (f.gas_fee_cap * 2) in
    record f {
      gas_tip_cap = at_most fee tip;
      gas_fee_cap = fee;
      blob_gas_fee_cap =
          at_most cfg.max_blob_gas_price
            (at_least (get_blob_gas_fee_cap blob_base_fee) (f.blob_gas_fee_cap * 2));
    }

-- The fees of a resubmitted transaction, by its type.
unfoldable pub bump : Config → ℕ → ℕ → Transaction → FeeData
unfolding bump_legacy bump_dynamic bump_blob
bump cfg base_fee blob_base_fee tx = elim cfg.tx_type [
  | legacy_tx ↦ bump_legacy cfg tx.fees
  | dynamic_fee_tx ↦ elim tx.blob [
    | none ↦ bump_dynamic cfg base_fee tx.fees
    | some blob ↦ bump_blob cfg base_fee blob_base_fee tx.fees
  ]
]

-- The gas limit: the estimate with 20% more, or the fallback where there is none.
unfoldable pub gas_limit_of : Option ℕ → ℕ → Option ℕ
gas_limit_of none fallback = if fallback == 0 then none else some fallback
gas_limit_of (some gas) fallback = some (mul64 gas 12 / 10)

abbrev pub with_limit : Option ℕ → FeeData → Option FeeData
with_limit none f = none
with_limit (some gas) f = some (record f { gas_limit = gas })

-- The fees of a first submission, without the gas limit: estimateLegacyGas, estimateDynamicGas and
-- estimateBlobGas.
unfoldable pub legacy_fees : Option ℕ → Option FeeData
legacy_fees none = none
legacy_fees (some price) = some (record {
  gas_limit = 0;
  gas_price = price;
  gas_tip_cap = 0;
  gas_fee_cap = 0;
  blob_gas_fee_cap = 0;
})

unfoldable pub dynamic_fees : ℕ → ℕ → Option ℕ → Option FeeData
unfolding get_gas_fee_cap
dynamic_fees base_fee blob_cap none = none
dynamic_fees base_fee blob_cap (some tip) = some (record {
  gas_limit = 0;
  gas_price = 0;
  gas_tip_cap = tip;
  gas_fee_cap = get_gas_fee_cap base_fee tip;
  blob_gas_fee_cap = blob_cap;
})

abbrev pub limited : Option FeeData → Option ℕ → Option FeeData
limited none gas = none
limited (some f) gas = with_limit gas f

-- getFeeData
unfoldable pub get_fee_data : Config → Client → Option (List ℕ) → ℕ → ℕ → ℕ → Option FeeData
unfolding gas_limit_of legacy_fees dynamic_fees get_blob_gas_fee_cap
get_fee_data cfg client blob base_fee blob_base_fee fallback =
    let gas = gas_limit_of client.estimated_gas fallback in
    elim cfg.tx_type [
      | legacy_tx ↦ limited (legacy_fees client.suggested_price) gas
      | dynamic_fee_tx ↦ elim blob [
        | none ↦ limited (dynamic_fees base_fee 0 client.suggested_tip) gas
        | some b ↦
            limited
              (dynamic_fees base_fee (get_blob_gas_fee_cap blob_base_fee) client.suggested_tip) gas
      ]
    ]

-- ===== src/L1Oracle.antt =====
-- The layer 1 gas oracle: rollup/internal/controller/relayer/l1_relayer.go on the table of
-- rollup/internal/orm/l1_block.go.
-- The table is the list of the blocks that are not deleted. The ABI packing and SendTransaction are
-- operations of the record `Env`, in which flags say which calls of the database fail; a base fee
-- is below 2^63, so that the signed number that is packed is the same.
pub mod Blocks
pub mod Imports
pub mod Tests
use scroll.Common.{
  ℕ, ◌+◌, Bool, true, false, not, ◌&&◌, Option, none, some, List, [], ◌∷◌, ◌++◌, length, ltb, leb,
  ◌==◌, if◌then◌else◌, select, count_where, update_where,
}
use scroll.Relayer.{
  GasOracleStatus, gas_oracle_importing, sender_l1_gas_oracle, SenderType, sender_unknown,
  sender_commit_batch, sender_finalize_batch, sender_l2_gas_oracle, Tx,
}
use scroll.Relayer.Confirm.{Confirmation, oracle_status}
use scroll.Relayer.GasOracle.{is_oracle_pending, is_sent}

pub record L1Block : Type 0 where
  pub number : ℕ
  pub hash : ℕ
  pub base_fee : ℕ
  pub gas_oracle_status : GasOracleStatus
  pub oracle_tx_hash : Option ℕ

pub record L1State : Type 0 where
  pub blocks : List L1Block
  pub last_gas_price : ℕ
  pub sent : List Tx

pub record Env : Type 0 where
  pub reads_fail : Bool
  pub update_fails : Bool
  pub pack : ℕ → Option (List ℕ)
  pub send_transaction : Tx → Option ℕ
  pub min_gas_price : ℕ
  pub gas_price_diff : ℕ

-- GetLatestL1BlockHeight
unfoldable pub get_latest_l1_block_height : List L1Block → ℕ
get_latest_l1_block_height [] = 0
get_latest_l1_block_height (b ∷ bs) =
    let rest = get_latest_l1_block_height bs in if ltb rest b.number then b.number else rest

-- GetL1Blocks for one number
unfoldable pub get_l1_blocks : ℕ → List L1Block → List L1Block
get_l1_blocks number blocks = select (λ b. b.number == number) blocks

-- The least number of the new blocks.
unfoldable pub min_block_number : ℕ → List L1Block → ℕ
min_block_number low [] = low
min_block_number low (b ∷ bs) = min_block_number (if ltb b.number low then b.number else low) bs

-- The deletion and the insertion, unless too many blocks were deleted.
unfoldable pub insert_from : ℕ → List L1Block → List L1Block → Option (List L1Block)
unfolding count_where
insert_from low new blocks =
    if leb (length new + 64) (count_where (λ b. leb low b.number) blocks)
    then none
    else some (select (λ b. not (leb low b.number)) blocks ++ new)

-- InsertL1Blocks, if the database carries it out: `none` is its error, which leaves the table.
unfoldable pub insert_l1_blocks : List L1Block → List L1Block → Option (List L1Block)
unfolding insert_from min_block_number
insert_l1_blocks [] blocks = some blocks
insert_l1_blocks (b ∷ bs) blocks = insert_from (min_block_number b.number bs) (b ∷ bs) blocks

-- UpdateL1GasOracleStatusAndOracleTxHash
abbrev pub set_oracle_status : GasOracleStatus → ℕ → L1Block → L1Block
set_oracle_status status tx_hash b = record b {
  gas_oracle_status = status;
  oracle_tx_hash = some tx_hash;
}

unfoldable pub update_l1_gas_oracle_status : ℕ → GasOracleStatus → ℕ → List L1Block → List L1Block
unfolding update_where
update_l1_gas_oracle_status hash status tx_hash =
    update_where (λ b. b.hash == hash) (set_oracle_status status tx_hash)

abbrev pub base_fee_tx : L1Block → List ℕ → Tx
base_fee_tx b bytes = record {
  sender_type = sender_l1_gas_oracle;
  context_id = b.hash;
  data_bytes = bytes;
  blob = none;
  fallback_gas_limit = 0;
}

abbrev pub after_sent : Option ℕ → Bool → L1Block → Tx → L1State → L1State
after_sent none fails b tx st = st
after_sent (some tx_hash) true b tx st = record st { sent = tx ∷ st.sent }
after_sent (some tx_hash) false b tx st = record {
  blocks = update_l1_gas_oracle_status b.hash gas_oracle_importing tx_hash st.blocks;
  last_gas_price = b.base_fee;
  sent = tx ∷ st.sent;
}

module _ (env : Env) where
  abbrev pub after_packed : Option (List ℕ) → L1Block → L1State → L1State
  after_packed none b st = st
  after_packed (some bytes) b st =
      after_sent (env.send_transaction (base_fee_tx b bytes)) env.update_fails b
        (base_fee_tx b bytes) st

  -- The part behind the fetched block.
  unfoldable pub import_base_fee : List L1Block → L1State → L1State
  unfolding is_sent update_l1_gas_oracle_status
  import_base_fee [] st = st
  import_base_fee (b ∷ []) st =
      if is_oracle_pending b.gas_oracle_status
        && is_sent env.min_gas_price env.gas_price_diff st.last_gas_price b.base_fee
      then after_packed (env.pack b.base_fee) b st
      else st
  import_base_fee (b ∷ c ∷ bs) st = st

  -- ProcessGasPriceOracle of the layer 1 relayer
  unfoldable pub process_l1_gas_price_oracle : L1State → L1State
  unfolding get_latest_l1_block_height get_l1_blocks import_base_fee
  process_l1_gas_price_oracle st =
      if env.reads_fail
      then st
      else import_base_fee (get_l1_blocks (get_latest_l1_block_height st.blocks) st.blocks) st

-- handleConfirmation of the layer 1 relayer
unfoldable pub handle_l1_confirmation : Env → Confirmation → L1State → L1State
unfolding update_l1_gas_oracle_status
handle_l1_confirmation env cfm st = elim cfm.sender_type [
  | sender_l1_gas_oracle ↦ if env.update_fails then st else record st {
    blocks =
        update_l1_gas_oracle_status cfm.context_id (oracle_status cfm.is_successful) cfm.tx_hash
          st.blocks;
  }
  | _ ↦ st
]

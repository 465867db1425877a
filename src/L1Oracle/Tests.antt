-- ===== src/L1Oracle/Tests.antt =====
-- Concrete runs of the layer 1 gas oracle.
use scroll.Common.{ℕ, ◌≡◌, ◌⊎◌, refl, false, some, none, [], ◌∷◌, arith}
use scroll.Relayer.{gas_oracle_pending}
use scroll.L1Oracle.{L1Block, L1State, Env, insert_l1_blocks, process_l1_gas_price_oracle}
use scroll.L1Oracle.Blocks.{IsUnique, insert-IsUnique}
use scroll.L1Oracle.Imports.{IsImporting, process-IsImporting}

abbrev block : ℕ → ℕ → L1Block
block number base_fee = record {
  number = number;
  hash = base_fee;
  base_fee = base_fee;
  gas_oracle_status = gas_oracle_pending;
  oracle_tx_hash = none;
}

abbrev env : Env
env = record {
  reads_fail = false;
  update_fails = false;
  pack = λ fee. some (fee ∷ []);
  send_transaction = λ tx. some 9;
  min_gas_price = 0;
  gas_price_diff = 50000;
}

abbrev start : L1State
start = record { blocks = block 4 10 ∷ block 5 20 ∷ []; last_gas_price = 0; sent = [] }

process-IsImporting_example :
    (process_l1_gas_price_oracle env start ≡ start)
    ⊎ IsImporting env start (process_l1_gas_price_oracle env start)
process-IsImporting_example = process-IsImporting env start

inserted :
    insert_l1_blocks (block 5 30 ∷ block 6 40 ∷ []) start.blocks
    ≡ some (block 4 10 ∷ block 5 30 ∷ block 6 40 ∷ [])
unfolding insert_l1_blocks
inserted = refl

insert-IsUnique_example : IsUnique (block 4 10 ∷ block 5 30 ∷ block 6 40 ∷ [])
insert-IsUnique_example =
    insert-IsUnique (block 5 30 ∷ block 6 40 ∷ []) start.blocks
      (block 4 10 ∷ block 5 30 ∷ block 6 40 ∷ []) ((λ e. absurd (omega (arith, e)), tt), (tt, tt))
      ((λ e. absurd (omega (arith, e)), tt), (tt, tt)) inserted

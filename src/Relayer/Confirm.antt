-- ===== src/Relayer/Confirm.antt =====
-- The confirmations of transactions: handleConfirmation of
-- rollup/internal/controller/relayer/l2_relayer.go.
use scroll.Common.{ℕ, Bool, if◌then◌else◌}
use scroll.Relayer.{
  SenderType, sender_unknown, sender_l1_gas_oracle, sender_commit_batch, sender_finalize_batch,
  sender_l2_gas_oracle, RollupStatus, rollup_committed, rollup_commit_failed, rollup_finalized,
  rollup_finalize_failed, GasOracleStatus, gas_oracle_imported, gas_oracle_imported_failed, State,
  Env, map_batches, update_status,
}
use scroll.Relayer.Tables.{
  update_commit_tx_hash_and_rollup_status, update_finalize_tx_hash_and_rollup_status,
  update_l2_gas_oracle_status_and_oracle_tx_hash,
}

-- sender.Confirmation
pub record Confirmation : Type 0 where
  pub sender_type : SenderType
  pub context_id : ℕ
  pub is_successful : Bool
  pub tx_hash : ℕ

abbrev pub commit_status : Bool → RollupStatus
commit_status is_successful = if is_successful then rollup_committed else rollup_commit_failed

abbrev pub finalize_status : Bool → RollupStatus
finalize_status is_successful = if is_successful then rollup_finalized else rollup_finalize_failed

abbrev pub oracle_status : Bool → GasOracleStatus
oracle_status is_successful =
    if is_successful then gas_oracle_imported else gas_oracle_imported_failed

-- The switch on the sender.
unfoldable pub confirm_as : SenderType → Env → Confirmation → State → State
unfolding update_commit_tx_hash_and_rollup_status update_finalize_tx_hash_and_rollup_status
    update_l2_gas_oracle_status_and_oracle_tx_hash
confirm_as sender_unknown env cfm st = st
confirm_as sender_l1_gas_oracle env cfm st = st
confirm_as sender_commit_batch env cfm st =
    map_batches
      (update_commit_tx_hash_and_rollup_status env.now cfm.context_id cfm.tx_hash
        (commit_status cfm.is_successful))
      st
confirm_as sender_finalize_batch env cfm st =
    map_batches
      (update_finalize_tx_hash_and_rollup_status env.now cfm.context_id cfm.tx_hash
        (finalize_status cfm.is_successful))
      st
confirm_as sender_l2_gas_oracle env cfm st =
    map_batches
      (update_l2_gas_oracle_status_and_oracle_tx_hash cfm.context_id
        (oracle_status cfm.is_successful) cfm.tx_hash)
      st

-- handleConfirmation. A failing update is logged and nothing else.
unfoldable pub handle_confirmation : Env → Confirmation → State → State
unfolding confirm_as
handle_confirmation env cfm st =
    if env.fails update_status cfm.context_id then st else confirm_as cfm.sender_type env cfm st

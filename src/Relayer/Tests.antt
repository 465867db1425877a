-- ===== src/Relayer/Tests.antt =====
-- Concrete runs of the relayer.
use scroll.Common.{
  ℕ, ◌≡◌, ◌≤◌, ◌+◌, ◌⊎◌, ◌↔◌, refl, inl, inr, Bool, true, false, Option, some, none, List, [], ◌∷◌,
  arith, ◌==◌,
}
use scroll.Coordinator.{unassigned, verified}
use scroll.Relayer.{
  Batch, State, Env, RollupStatus, rollup_pending, rollup_committed, rollup_finalized,
  sender_commit_batch, sender_finalize_batch, gas_oracle_pending, map_batches,
}
use scroll.Relayer.Tables.{get_failed_and_pending_batches}
use scroll.Relayer.Commit.{process_pending_batches}
use scroll.Relayer.Finalize.{process_committed_batches}
use scroll.Relayer.Confirm.{Confirmation, handle_confirmation}
use scroll.Relayer.GasOracle.{is_sent}
use scroll.Relayer.Sound.{HasTx, IsSound}
use scroll.Relayer.Runs.{Step, Reach, Reach-IsSound, Reach-finalized}
use scroll.Relayer.Finalizing.{IsFinalizing, process_committed-IsFinalizing}
use scroll.Relayer.Committing.{IsCommitting, process_pending-IsCommitting}
use scroll.Relayer.Prices.{IsDelta, is_sent-IsDelta}

-- Everything works, and every transaction has hash 9.
abbrev env : Env
env = record {
  now = 100;
  fails = λ query id. false;
  is_bernoulli = λ number. true;
  marshaller = record { hex_decode = λ text. some []; marshal = λ tx bytes. some [] };
  new_blob_batch = λ b. some (record {
    version = 1;
    skipped_l1_message_bitmap = [];
    blob = 5 ∷ [];
    blob_data_proof = some (6 ∷ []);
  });
  encode_blob_chunk = λ chunk popped. some (3 ∷ []);
  pack = λ call. some (1 ∷ []);
  decode_proof = λ bytes. some (scroll.Common.replicate 32 7);
  scale_gas = λ gas. gas;
  send_transaction = λ tx. some 9;
  suggest_gas_price = some 1000;
  batch_status = λ index from to. some true;
  chain_monitor_enabled = true;
  enable_test_env_bypass_features = false;
  finalize_batch_without_proof_timeout = 0;
  min_gas_price = 0;
  gas_price_diff = 50000;
}

abbrev batch_at : ℕ → ℕ → RollupStatus → Batch
batch_at index hash status = record {
  index = index;
  hash = hash;
  start_chunk_index = index;
  end_chunk_index = index;
  state_root = 40 + index;
  withdraw_root = 50 + index;
  batch_header = index ∷ [];
  total_l1_commit_gas = 21;
  proving_status = unassigned;
  proof = none;
  rollup_status = status;
  commit_tx_hash = none;
  committed_at = none;
  finalize_tx_hash = none;
  finalized_at = none;
  oracle_status = gas_oracle_pending;
  oracle_tx_hash = none;
}

-- The genesis batch and a new one.
abbrev start : State
start = record {
  db = record {
    batches = batch_at 0 70 rollup_finalized ∷ batch_at 1 71 rollup_pending ∷ [];
    chunks =
        record {
          index = 1;
          start_block_number = 1;
          end_block_number = 1;
          total_l1_messages_popped_before = 0;
        }
        ∷ [];
    blocks =
        record {
          header = record {
            number = 1;
            time = 2;
            base_fee = none;
            gas_limit = 3;
            gas_used = 4;
            root = 5;
          };
          transactions = [];
          withdraw_root = 6;
          row_consumption = none;
        }
        ∷ [];
  };
  last_gas_price = 0;
  sent = [];
}

start-IsSound : IsSound start
start-IsSound = record { rows = (inl refl, (inr tt, tt)); ordered = tt }

abbrev committing : State
committing = (process_pending_batches env start).1

abbrev confirmed : Confirmation
confirmed = record {
  sender_type = sender_commit_batch;
  context_id = 71;
  is_successful = true;
  tx_hash = 9;
}

abbrev committed : State
committed = handle_confirmation env confirmed committing

committing-HasTx : HasTx sender_commit_batch 71 committing.sent
unfolding process_pending_batches
committing-HasTx = inl (refl, refl)

Reach-committed : Reach start committed
Reach-committed =
    Reach.step (Reach.step Reach.here (Step.commit env))
      (Step.confirm env confirmed committing-HasTx)

Reach-IsSound_example : IsSound committed
Reach-IsSound_example = Reach-IsSound start committed start-IsSound Reach-committed

none_failed : (process_pending_batches env start).0 ≡ none
unfolding process_pending_batches
none_failed = refl

process_pending-IsCommitting_example :
    IsCommitting (get_failed_and_pending_batches 5 start.db.batches) start committing
process_pending-IsCommitting_example = process_pending-IsCommitting env start none_failed

-- The batch is proved, finalized and confirmed.
abbrev proved_rows : List Batch
proved_rows =
    batch_at 0 70 rollup_finalized
    ∷ record (batch_at 1 71 rollup_committed) {
      commit_tx_hash = some 9;
      committed_at = some 100;
      proving_status = verified;
      proof = some (8 ∷ []);
    }
    ∷ []

abbrev proved : State
proved = map_batches (λ old. proved_rows) committed

Reach-proved : Reach start proved
unfolding handle_confirmation process_pending_batches
Reach-proved = Reach.step Reach-committed (Step.prove proved_rows (refl, (refl, tt)))

process_committed-IsFinalizing_example :
    ((process_committed_batches env proved).1 ≡ proved)
    ⊎ IsFinalizing env proved (process_committed_batches env proved).1
process_committed-IsFinalizing_example = process_committed-IsFinalizing env proved

abbrev finalizing : State
finalizing = (process_committed_batches env proved).1

abbrev finalized_cfm : Confirmation
finalized_cfm = record {
  sender_type = sender_finalize_batch;
  context_id = 71;
  is_successful = true;
  tx_hash = 9;
}

finalizing-HasTx : HasTx sender_finalize_batch 71 finalizing.sent
unfolding process_committed_batches handle_confirmation process_pending_batches
finalizing-HasTx = inl (refl, refl)

abbrev finalized : State
finalized = handle_confirmation env finalized_cfm finalizing

abbrev finalized_batch : Batch
finalized_batch = record (batch_at 1 71 rollup_finalized) {
  commit_tx_hash = some 9;
  committed_at = some 100;
  proving_status = verified;
  proof = some (8 ∷ []);
  finalize_tx_hash = some 9;
  finalized_at = some 100;
}

Reach-finalized_example :
    HasTx sender_commit_batch 71 finalized.sent × HasTx sender_finalize_batch 71 finalized.sent
unfolding handle_confirmation process_committed_batches process_pending_batches
Reach-finalized_example =
    Reach-finalized start finalized finalized_batch start-IsSound
      (Reach.step (Reach.step Reach-proved (Step.finalize env))
        (Step.confirm env finalized_cfm finalizing-HasTx))
      (inr (inl refl)) (λ e. absurd (omega (arith, e))) refl

is_sent-IsDelta_example : (is_sent 10 50000 1000 1050 ≡ true) ↔ (
    ◌≡◌ {A = ℕ} 1000 0
    ⊎ ((10 ≤ 1050)
        × ((delta : ℕ) × (IsDelta 1000 50000 delta
              × ((1000 + delta ≤ 1050) ⊎ (1050 + delta ≤ 1000))))))
is_sent-IsDelta_example =
    is_sent-IsDelta 10 50000 1000 1050 (omega arith) (omega arith) (omega arith)

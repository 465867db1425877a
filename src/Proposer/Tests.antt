-- ===== src/Proposer/Tests.antt =====
-- Concrete runs of the proposer of chunks.
use scroll.Common.{ℕ, ◌≡◌, refl, false, some, none, List, [], ◌∷◌, All, ok, arith}
use scroll.Encoding.{Marshaller, Block, crc_max, num_transactions}
use scroll.Encoding.CodecV0.Gas.{estimate_chunk_size, estimate_chunk_gas}
use scroll.Proposer.{Config, propose_chunk}
use scroll.Proposer.Limits.{
  IsProposed, IsBeforeForks, propose_chunk-IsProposed, propose_chunk-IsBeforeForks,
}

abbrev pub marshaller : Marshaller
marshaller = record { hex_decode = λ s. some []; marshal = λ tx input. some (1 ∷ []) }

abbrev config : Config
config = record {
  max_block_num_per_chunk = 10;
  max_tx_num_per_chunk = 100;
  max_l1_commit_calldata_size_per_chunk = 1000;
  max_l1_commit_gas_per_chunk = 1000000;
  max_row_consumption_per_chunk = 1000;
  chunk_timeout_sec = 300;
  over_estimate = λ n. n;
  fork_heights = 5 ∷ [];
  is_bernoulli = λ n. false;
}

abbrev pub block : ℕ → Block
block n = record {
  header = record {
    number = n;
    time = 1000;
    base_fee = none;
    gas_limit = 100;
    gas_used = 50;
    root = 0;
  };
  transactions = [];
  withdraw_root = 0;
  row_consumption = some [];
}

abbrev pub table : List Block
table = block 2 ∷ block 3 ∷ block 4 ∷ block 5 ∷ []

-- The chunk from block 3 on stops in front of the fork at block 5.
proposed :
    propose_chunk marshaller config 2000 (some 3) (some table) ≡ ok (some (block 3 ∷ block 4 ∷ []))
unfolding propose_chunk crc_max estimate_chunk_size estimate_chunk_gas num_transactions
proposed = refl

propose_chunk-IsProposed_example : IsProposed marshaller config 3 table (block 3 ∷ block 4 ∷ [])
propose_chunk-IsProposed_example =
    propose_chunk-IsProposed marshaller config 2000 3 table (block 3 ∷ block 4 ∷ []) (omega arith)
      (omega arith) proposed

propose_chunk-IsBeforeForks_example : All (IsBeforeForks 3 (5 ∷ [])) (block 3 ∷ block 4 ∷ [])
propose_chunk-IsBeforeForks_example =
    propose_chunk-IsBeforeForks marshaller config 2000 3 table (block 3 ∷ block 4 ∷ [])
      (omega arith) (omega arith) (tt, tt) (refl, (refl, (refl, tt))) proposed

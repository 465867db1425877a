-- ===== src/L2Watcher/Tests.antt =====
-- Concrete runs of the watcher of layer 2 blocks.
use scroll.Common.{ℕ, ◌≡◌, ◌∷◌, ap, refl, sym, some, false, true, [], arith, length}
use scroll.History.Reports.{some-injective}
use scroll.Encoding.CodecV0.Gas.{estimate_block_size}
use scroll.Proposer.Limits.{IsRun}
use scroll.Proposer.Tests.{marshaller, block}
use scroll.L2Watcher.{Client, RemoteBlock, txs_to_txs_data, try_fetch_running_missing_blocks}
use scroll.L2Watcher.Runs.{IsNumbered, try_fetch-IsRun}
use scroll.L2Watcher.Reaches.{IsServing, try_fetch-length}

abbrev remote : ℕ → RemoteBlock
remote n = record { header = (block n).header; transactions = []; row_consumption = some [] }

abbrev client : Client
client = record {
  hex_encode = λ bytes. "";
  get_block = λ n. some (remote n);
  withdraw_root_at = λ n. some 7;
  insert_fails = λ blocks. false;
  marshaller = marshaller;
}

client-IsNumbered : IsNumbered client
client-IsNumbered n b e = sym (ap (λ (x : RemoteBlock). x.header.number) (some-injective e))

client-IsServing : IsServing client
unfolding estimate_block_size txs_to_txs_data
client-IsServing = record {
  fetched = λ n. (
    record {
      header = (block n).header;
      transactions = [];
      withdraw_root = 7;
      row_consumption = some [];
    },
    refl,
    60,
    refl,
  );
  inserted = λ blocks. refl;
}

-- Two blocks are in the table, and the height is 13.
twelve : length (try_fetch_running_missing_blocks client true 13 (block 1 ∷ block 2 ∷ [])) ≡ 13
unfolding try_fetch_running_missing_blocks estimate_block_size
twelve = refl

try_fetch-IsRun_example :
    IsRun 1 (try_fetch_running_missing_blocks client true 13 (block 1 ∷ block 2 ∷ []))
try_fetch-IsRun_example =
    try_fetch-IsRun client true 13 (block 1 ∷ block 2 ∷ []) client-IsNumbered (omega arith)
      (omega arith) (refl, (refl, tt))

try_fetch-length_example :
    length (try_fetch_running_missing_blocks client true 13 (block 1 ∷ block 2 ∷ [])) ≡ 13
try_fetch-length_example =
    try_fetch-length client 13 (block 1 ∷ block 2 ∷ []) client-IsNumbered client-IsServing
      (omega arith) (omega arith) (refl, (refl, tt))

-- ===== src/L2Watcher.antt =====
-- The watcher of layer 2 blocks: rollup/internal/controller/watcher/l2_watcher.go with
-- GetL2BlocksLatestHeight and InsertL2Blocks of rollup/internal/orm/l2_block.go. The layer 2 client
-- and the hexadecimal text of a transaction's data are functions of the client, and so is whether
-- an insert fails, be it the JSON of a block or the database. The table keeps the blocks in the
-- form that its queries return.
pub mod Runs
pub mod Reaches
pub mod Tests
use Prim.Native.String.{String}
use scroll.Common.{
  ℕ, zero, suc, ◌-◌, Bool, true, false, Option, none, some, List, [], ◌∷◌, ◌++◌, ltb, leb, add64,
  sub64, if◌then◌else◌, Outcome, ok, err, ◌>>=◌,
}
use scroll.Encoding.{TxType, TransactionData, SubCircuit, Header, Block, Marshaller, EncodingError}
use scroll.Encoding.CodecV0.Gas.{estimate_block_size}

-- A transaction of a fetched block; the queue index is that of AsL1MessageTx.
pub record RemoteTx : Type 0 where
  pub tx_type : TxType
  pub tx_hash : String
  pub nonce : ℕ
  pub l1_queue_index : Option ℕ
  pub call_data : List ℕ

pub record RemoteBlock : Type 0 where
  pub header : Header
  pub transactions : List RemoteTx
  pub row_consumption : Option (List SubCircuit)

pub record Client : Type 0 where
  pub hex_encode : List ℕ → String
  pub get_block : ℕ → Option RemoteBlock
  pub withdraw_root_at : ℕ → Option ℕ
  pub insert_fails : List Block → Bool
  pub marshaller : Marshaller

pub data WatchError : Type 0 where
  block_missing no_row_consumption storage_failed insert_failed : WatchError
  size_failed : EncodingError → WatchError

abbrev pub blocks_fetch_limit : ℕ
blocks_fetch_limit = 10

abbrev pub queue_index_or : ℕ → Option ℕ → ℕ
queue_index_or nonce none = nonce
queue_index_or nonce (some index) = index

-- txsToTxsData
unfoldable pub txs_to_txs_data : Client → List RemoteTx → List TransactionData
txs_to_txs_data client [] = []
txs_to_txs_data client (tx ∷ txs) =
    record {
      tx_type = tx.tx_type;
      nonce = queue_index_or tx.nonce tx.l1_queue_index;
      tx_hash = tx.tx_hash;
      input = client.hex_encode tx.call_data;
    }
    ∷ txs_to_txs_data client txs

-- The checks on a fetched block, and the block that is stored for it.
abbrev pub with_withdraw_root :
    Client → RemoteBlock → List SubCircuit → Option ℕ → Outcome WatchError Block
with_withdraw_root client block rows none = err storage_failed
with_withdraw_root client block rows (some root) = ok (record {
  header = block.header;
  transactions = txs_to_txs_data client block.transactions;
  withdraw_root = root;
  row_consumption = some rows;
})

abbrev pub with_rows :
    Client → ℕ → RemoteBlock → Option (List SubCircuit) → Outcome WatchError Block
with_rows client number block none = err no_row_consumption
with_rows client number block (some rows) =
    with_withdraw_root client block rows (client.withdraw_root_at number)

abbrev pub with_block : Client → ℕ → Option RemoteBlock → Outcome WatchError Block
with_block client number none = err block_missing
with_block client number (some block) = with_rows client number block block.row_consumption

-- The loop over the numbers from `number` on, as many as are left.
unfoldable pub fetch_blocks : Client → ℕ → ℕ → Outcome WatchError (List Block)
unfolding txs_to_txs_data
fetch_blocks client number zero = ok []
fetch_blocks client number (suc n) = do
  block ← with_block client number (client.get_block number)
  rest ← fetch_blocks client (suc number) n
  ok (block ∷ rest)

abbrev pub sized : {A : Type 0} → Outcome EncodingError A → Outcome WatchError A
sized (ok a) = ok a
sized (err e) = err (size_failed e)

-- The loop that reports the size of each block.
unfoldable pub estimate_sizes : Marshaller → List Block → Outcome WatchError (List ℕ)
unfolding estimate_block_size
estimate_sizes m [] = ok []
estimate_sizes m (b ∷ bs) = do
  size ← sized (estimate_block_size m b)
  sizes ← estimate_sizes m bs
  ok (size ∷ sizes)

-- InsertL2Blocks
unfoldable pub insert_l2_blocks : Client → List Block → List Block → Outcome WatchError (List Block)
insert_l2_blocks client blocks table =
    if client.insert_fails blocks then err insert_failed else ok (table ++ blocks)

unfoldable pub store_blocks : Client → List Block → List Block → Outcome WatchError (List Block)
unfolding estimate_sizes insert_l2_blocks
store_blocks client [] table = ok table
store_blocks client (b ∷ bs) table = do
  sizes ← estimate_sizes client.marshaller (b ∷ bs)
  insert_l2_blocks client (b ∷ bs) table

-- getAndStoreBlocks
unfoldable pub get_and_store_blocks : Client → ℕ → ℕ → List Block → Outcome WatchError (List Block)
unfolding fetch_blocks store_blocks
get_and_store_blocks client from to table = do
  blocks ← fetch_blocks client from (suc to - from)
  store_blocks client blocks table

-- GetL2BlocksLatestHeight
unfoldable pub get_l2_blocks_latest_height : List Block → ℕ
get_l2_blocks_latest_height [] = 0
get_l2_blocks_latest_height (b ∷ bs) =
    let rest = get_l2_blocks_latest_height bs in
    if ltb rest b.header.number then b.header.number else rest

-- The end of a range of the loop.
abbrev pub last_of_range : ℕ → ℕ → ℕ
last_of_range from height =
    let to = sub64 (add64 from blocks_fetch_limit) 1 in if ltb height to then height else to

-- The loop over the ranges, with the rounds that are left; an error leaves the table as the rounds
-- before it made it.
unfoldable pub fetch_ranges : Client → ℕ → ℕ → ℕ → List Block → List Block
unfolding get_and_store_blocks
fetch_ranges client zero from height table = table
fetch_ranges client (suc n) from height table =
    if leb from height
    then elim (get_and_store_blocks client from (last_of_range from height) table) [
      | ok stored ↦ fetch_ranges client n (add64 from blocks_fetch_limit) height stored
      | err e ↦ table
    ]
    else table

-- TryFetchRunningMissingBlocks, with the latest height in the table if it can be read. A round
-- moves on by ten blocks, so there are enough rounds unless `from` wraps around.
unfoldable pub try_fetch_running_missing_blocks : Client → Bool → ℕ → List Block → List Block
unfolding get_l2_blocks_latest_height fetch_ranges
try_fetch_running_missing_blocks client false height table = table
try_fetch_running_missing_blocks client true height table =
    fetch_ranges client (suc height) (add64 (get_l2_blocks_latest_height table) 1) height table

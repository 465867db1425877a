-- ===== src/Lib.antt =====
-- A verification library for the Go services of the Scroll zkEVM.
--
-- Sequenced L2 blocks are grouped into chunks and chunks into batches; a batch is committed to L1
-- in the bytes that a codec fixes, its chunks and itself are proved by remote provers, and the
-- coordinator hands out the proving tasks and takes the proofs. The modelled parts are these.
--
-- * Common holds helpers: tests into Bool, lists over native numbers, Go's `(value, error)`
--   results, uint64 arithmetic, big-endian bytes, and database tables as lists of rows.
-- * Forks models common/forks/forks.go: CollectSortedForkHeights, BlocksUntilFork and BlockRange
--   as collect_sorted_fork_heights, blocks_until_fork and block_range.
-- * Encoding models common/types/encoding/da.go (counts of messages and transactions, row
--   consumption, the conversion of a transaction). Encoding/Bitmap models
--   common/types/encoding/bitmap.go, and Encoding/CodecV0 with Encoding/CodecV0/Gas models
--   common/types/encoding/codecv0/codecv0.go; Encoding/CodecV1 models
--   common/types/encoding/codecv1/codecv1.go, where the blob is construct_blob_payload.
-- * Coordinator models the tables of coordinator/internal/orm with the statuses of
--   common/types/db.go and common/types/message/message.go; Coordinator/Orm has their queries.
--   Coordinator/ProofStatus and Coordinator/SubmitProof model
--   coordinator/internal/logic/submitproof/proof_receiver.go, updateProofStatus as
--   update_proof_status and HandleZkProof as handle_zk_proof; Coordinator/Collector models the
--   timeout checks of coordinator/internal/controller/cron/collect_proof.go, check as check, and
--   Coordinator/Collector/Batches its checkBatchAllChunkReady; Coordinator/Assign models
--   coordinator/internal/logic/provertask/chunk_prover_task.go, Assign as assign.
-- * Proposer models proposeChunk of rollup/internal/controller/watcher/chunk_proposer.go as
--   propose_chunk, with CalculateChunkMetrics of rollup/internal/utils/utils.go, and
--   Proposer/Batches proposeBatch of batch_proposer.go beside it, as propose_batch. Both return what
--   they hand to the transaction that stores it.
-- * Relayer models rollup/internal/controller/relayer/l2_relayer.go on the tables of
--   rollup/internal/orm with Relayer/Tables for their queries: ProcessPendingBatches as
--   process_pending_batches in Relayer/Commit, ProcessCommittedBatches and finalizeBatch as
--   process_committed_batches and finalize in Relayer/Finalize, handleConfirmation as
--   handle_confirmation in Relayer/Confirm, and ProcessGasPriceOracle as process_gas_price_oracle
--   in Relayer/GasOracle. Relayer/Runs has these steps with those of the other services as a
--   relation between states.
-- * L1Oracle models rollup/internal/controller/relayer/l1_relayer.go, ProcessGasPriceOracle as
--   process_l1_gas_price_oracle, on the table of rollup/internal/orm/l1_block.go, whose
--   InsertL1Blocks is insert_l1_blocks.
-- * L2Watcher models rollup/internal/controller/watcher/l2_watcher.go,
--   TryFetchRunningMissingBlocks as try_fetch_running_missing_blocks, with the table of
--   rollup/internal/orm/l2_block.go.
-- * Sender models rollup/internal/controller/sender: SendTransaction as send_transaction and
--   checkPendingTransaction as check_pending_transaction in Sender/Transactions, and the fees of
--   first and repeated submissions in Sender/Fees. The relayer's own steps take SendTransaction as a
--   function, since they only use the hash that it returns.
-- * Prover models prover/store/stack.go and proveAndSubmit of prover/prover.go, as prove_and_submit.
-- * WithdrawTrie models bridge-history-api/internal/utils/withdraw_trie.go: AppendMessages as
--   append_messages, Initialize as initialize. WithdrawTrie/Nodes has the Merkle tree that it
--   stands for.
-- * History models the bridge history service, bridge-history-api/internal. History/Messages and
--   History/Updates model orm/cross_message.go, with upsert for INSERT ON CONFLICT, and
--   History/Events orm/batch_event.go. History/Parsing and History/Parsers model
--   logic/l1_event_parser.go and logic/l2_event_parser.go, History/Fetching and History/Fetchers
--   logic/l1_fetcher.go and logic/l2_fetcher.go with controller/fetcher, where l1_tick and l2_tick
--   are one call of fetchAndSaveEvents. History/Saves models logic/event_update.go, which uses
--   WithdrawTrie for the proofs of withdrawals. History/Steps has the calls that save events as a
--   relation between states of the tables.
--
-- State is passed explicitly: a handler takes the tables and returns its error with the tables
-- that it leaves. A database call fails when a flag or a function of the environment says so, and a
-- failure inside a transaction rolls the transaction back. What other requests do to the tables
-- enters `assign` as a function between the read of a chunk and the update of its attempts; the
-- other handlers run without interference. Loops are structural recursion on the data that the
-- code ranges over, and the five tries of `Assign` on the number of tries left. The loop over
-- the pages of checkBatchAllChunkReady has fuel, one more than the number of batches, which is
-- enough since every page but the last holds 50 rows. The arithmetic of uint64 keeps its
-- wrap-around. The loop over the ranges of fetchAndSaveEvents has one round for each height that
-- is left, which is enough for a positive limit, and so has that of TryFetchRunningMissingBlocks,
-- where it is enough unless the heights come within twenty of the largest uint64.
--
-- Keccak256, the decoding of hexadecimal text, the marshalling of transactions and the verifier of
-- proofs are code of other projects and enter as functions, and so do the layer 1 client and the
-- ABI; so does what the relayer takes from codec version 1 and the KZG library. Hashes and UUIDs
-- are numbers.
--
-- Not modelled: BlobDataProof of codec version 1, the transactions that store proposed
-- chunks and batches, the watcher of layer 1 events,
-- the web API of the bridge history service with its cache, the prover's client and core, the
-- login of provers, the assignment of batches, and configuration, metrics, logs and command lines.
pub mod Common
pub mod Coordinator
pub mod Encoding
pub mod Forks
pub mod History
pub mod L1Oracle
pub mod L2Watcher
pub mod Proposer
pub mod Prover
pub mod Relayer
pub mod Sender
pub mod WithdrawTrie

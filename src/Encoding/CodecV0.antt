-- ===== src/Encoding/CodecV0.antt =====
-- The version 0 codec: common/types/encoding/codecv0/codecv0.go.
-- A byte slice is a list of numbers below 256. Keccak256 and the decoding of a transaction hash
-- are go-ethereum's and the standard library's; `Hasher` holds them as functions.
pub mod BatchBytes
pub mod Gas
pub mod Sizes
use Prim.Native.String.{String}
use scroll.Common.{
  ℕ, zero, suc, ◌%◌, Bool, true, false, Option, none, some, List, [], ◌∷◌, ◌++◌, length, take, drop,
  replicate, get_or, ltb, if◌then◌else◌, Outcome, ok, err, ◌>>=◌, u64, u64_mod, add64, sub64, mul64,
  max_uint16, put_uint, get_uint,
}
use scroll.Encoding.{
  TransactionData, Block, Chunk, Batch, is_l1_message, block_num_l1_messages,
  block_num_l2_transactions, chunk_num_l1_messages, Marshaller, EncodingError,
  block_number_not_uint64, too_many_l1_messages, too_many_transactions, chunk_is_empty,
  too_many_blocks, insufficient_data, hash_not_hex, convert_tx_data_to_rlp_encoding,
}
use scroll.Encoding.Bitmap.{construct_skipped_bitmap}

pub record DaBlock : Type 0 where
  pub block_number : ℕ
  pub timestamp : ℕ
  pub base_fee : Option ℕ
  pub gas_limit : ℕ
  pub num_transactions : ℕ
  pub num_l1_messages : ℕ

pub record DaChunk : Type 0 where
  pub blocks : List DaBlock
  pub transactions : List (List TransactionData)

pub record DaBatch : Type 0 where
  pub version : ℕ
  pub batch_index : ℕ
  pub l1_message_popped : ℕ
  pub total_l1_message_popped : ℕ
  pub data_hash : ℕ
  pub parent_batch_hash : ℕ
  pub skipped_l1_message_bitmap : List ℕ

abbrev pub codec_v0_version : ℕ
codec_v0_version = 0

-- NewDABlock
unfoldable pub new_da_block : Block → ℕ → Outcome EncodingError DaBlock
new_da_block b popped =
    let num_l1 = block_num_l1_messages b popped in
    let num_txs = add64 num_l1 (block_num_l2_transactions b) in
    if ltb b.header.number u64_mod
    then (if ltb max_uint16 num_l1
        then err too_many_l1_messages
        else if ltb max_uint16 num_txs
        then err too_many_transactions
        else ok (record {
          block_number = b.header.number;
          timestamp = b.header.time;
          base_fee = b.header.base_fee;
          gas_limit = b.header.gas_limit;
          num_transactions = num_txs;
          num_l1_messages = num_l1;
        }))
    else err block_number_not_uint64

abbrev pub base_fee_bytes : Option ℕ → List ℕ
base_fee_bytes none = replicate 8 0
base_fee_bytes (some fee) = put_uint 8 (u64 fee)

-- (b *DABlock) Encode: the fields at the offsets 0, 8, 40, 48, 56 and 58 of 60 zero bytes.
unfoldable pub encode_block : DaBlock → List ℕ
encode_block b =
    put_uint 8 b.block_number
    ++ (put_uint 8 b.timestamp
        ++ (replicate 24 0
            ++ (base_fee_bytes b.base_fee
                ++ (put_uint 8 b.gas_limit
                    ++ (put_uint 2 b.num_transactions ++ put_uint 2 b.num_l1_messages)))))

-- The loop of `NewDAChunk`.
unfoldable pub new_da_blocks :
    Chunk → ℕ → Outcome EncodingError (List DaBlock × List (List TransactionData))
new_da_blocks [] popped = ok ([], [])
new_da_blocks (b ∷ bs) popped = do
  da ← new_da_block b popped
  rest ← new_da_blocks bs (add64 popped (block_num_l1_messages b popped))
  ok (da ∷ rest.0, b.transactions ∷ rest.1)

-- NewDAChunk
unfoldable pub new_da_chunk : Chunk → ℕ → Outcome EncodingError DaChunk
unfolding new_da_blocks
new_da_chunk [] popped = err chunk_is_empty
new_da_chunk (b ∷ bs) popped =
    if ltb 255 (length (b ∷ bs))
    then err too_many_blocks
    else (new_da_blocks (b ∷ bs) popped >>= λ r. ok (record { blocks = r.0; transactions = r.1 }))

unfoldable pub encode_blocks : List DaBlock → List ℕ
unfolding encode_block
encode_blocks [] = []
encode_blocks (b ∷ bs) = encode_block b ++ encode_blocks bs

module _ (m : Marshaller) where
  -- The bytes of one L2 transaction behind their length in four bytes.
  unfoldable pub encode_tx : TransactionData → Outcome EncodingError (List ℕ)
  encode_tx tx = convert_tx_data_to_rlp_encoding m tx >>= λ rlp. ok (put_uint 4 (length rlp) ++ rlp)

  unfoldable pub encode_txs : List TransactionData → Outcome EncodingError (List ℕ)
  unfolding encode_tx
  encode_txs [] = ok []
  encode_txs (tx ∷ txs) =
      let rest = encode_txs txs in
      if is_l1_message tx then rest else (do bs ← encode_tx tx; r ← rest; ok (bs ++ r))

  unfoldable pub encode_tx_lists : List (List TransactionData) → Outcome EncodingError (List ℕ)
  unfolding encode_txs
  encode_tx_lists [] = ok []
  encode_tx_lists (txs ∷ r) = do bs ← encode_txs txs; rest ← encode_tx_lists r; ok (bs ++ rest)

  -- (c *DAChunk) Encode
  unfoldable pub encode_chunk : DaChunk → Outcome EncodingError (List ℕ)
  unfolding encode_blocks encode_tx_lists
  encode_chunk c = encode_tx_lists c.transactions >>= λ txs.
      ok ((length c.blocks % 256) ∷ (encode_blocks c.blocks ++ txs))

-- Keccak256, and `hex.DecodeString` behind `strings.TrimPrefix(_, "0x")`.
pub record Hasher : Type 0 where
  pub keccak256 : List ℕ → ℕ
  pub decode_hash : String → Option (List ℕ)

-- The first 58 bytes of each of the first `n` block contexts.
pub hashed_contexts : ℕ → List ℕ → List ℕ
hashed_contexts zero bytes = []
hashed_contexts (suc n) bytes = take 58 bytes ++ hashed_contexts n (drop 60 bytes)

-- The hashes of the L1 messages and of the L2 transactions of a block.
pub split_tx_hashes :
    Hasher → List TransactionData → List ℕ → List ℕ → Outcome EncodingError (List ℕ)
split_tx_hashes k [] l1 l2 = ok (l1 ++ l2)
split_tx_hashes k (tx ∷ txs) l1 l2 = elim (k.decode_hash tx.tx_hash) [
  | none ↦ err hash_not_hex
  | some bs ↦
      split_tx_hashes k txs (if is_l1_message tx then l1 ++ bs else l1)
        (if is_l1_message tx then l2 else l2 ++ bs)
]

pub all_tx_hashes : Hasher → List (List TransactionData) → Outcome EncodingError (List ℕ)
unfolding split_tx_hashes
all_tx_hashes k [] = ok []
all_tx_hashes k (txs ∷ r) = do
  bs ← split_tx_hashes k txs [] []
  rest ← all_tx_hashes k r
  ok (bs ++ rest)

-- (c *DAChunk) Hash. The encoding is never empty, so the guard on its length is `get_or … 0`.
unfoldable pub hash_chunk : Marshaller → Hasher → DaChunk → Outcome EncodingError ℕ
unfolding encode_chunk hashed_contexts all_tx_hashes
hash_chunk m k c = do
  bytes ← encode_chunk m c
  hashes ← all_tx_hashes k c.transactions
  ok (k.keccak256 (hashed_contexts (get_or bytes 0 0) (drop 1 bytes) ++ hashes))

-- The loop of `NewDABatch` over the chunks.
pub hash_chunks : Marshaller → Hasher → List Chunk → ℕ → Outcome EncodingError (List ℕ)
unfolding new_da_chunk hash_chunk
hash_chunks m k [] popped = ok []
hash_chunks m k (c ∷ cs) popped = do
  da ← new_da_chunk c popped
  h ← hash_chunk m k da
  rest ← hash_chunks m k cs (add64 popped (chunk_num_l1_messages c popped))
  ok (put_uint 32 h ++ rest)

-- NewDABatch
unfoldable pub new_da_batch : Marshaller → Hasher → Batch → Outcome EncodingError DaBatch
unfolding hash_chunks
new_da_batch m k b = do
  bytes ← hash_chunks m k b.chunks b.total_l1_message_popped_before
  bitmap ← construct_skipped_bitmap b.chunks b.total_l1_message_popped_before
  ok (record {
    version = codec_v0_version;
    batch_index = b.index;
    l1_message_popped = sub64 bitmap.1 b.total_l1_message_popped_before;
    total_l1_message_popped = bitmap.1;
    data_hash = k.keccak256 bytes;
    parent_batch_hash = b.parent_batch_hash;
    skipped_l1_message_bitmap = bitmap.0;
  })

-- (b *DABatch) Encode: the fields at the offsets 0, 1, 9, 17, 25, 57 and 89.
unfoldable pub encode_batch : DaBatch → List ℕ
encode_batch b =
    put_uint 1 b.version
    ++ (put_uint 8 b.batch_index
        ++ (put_uint 8 b.l1_message_popped
            ++ (put_uint 8 b.total_l1_message_popped
                ++ (put_uint 32 b.data_hash
                    ++ (put_uint 32 b.parent_batch_hash ++ b.skipped_l1_message_bitmap)))))

-- data[from:from+len], as the number that it spells
abbrev pub field_at : ℕ → ℕ → List ℕ → ℕ
field_at from len bytes = get_uint (take len (drop from bytes))

-- NewDABatchFromBytes
unfoldable pub new_da_batch_from_bytes : List ℕ → Outcome EncodingError DaBatch
new_da_batch_from_bytes bytes =
    if ltb (length bytes) 89
    then err insufficient_data
    else ok (record {
      version = field_at 0 1 bytes;
      batch_index = field_at 1 8 bytes;
      l1_message_popped = field_at 9 8 bytes;
      total_l1_message_popped = field_at 17 8 bytes;
      data_hash = field_at 25 32 bytes;
      parent_batch_hash = field_at 57 32 bytes;
      skipped_l1_message_bitmap = drop 89 bytes;
    })

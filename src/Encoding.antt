-- ===== src/Encoding.antt =====
-- Blocks, chunks and batches: common/types/encoding/da.go.
-- `Header`, `TransactionData` and `RowConsumption` belong to go-ethereum; the records below hold
-- the fields that the code reads. A hash is the number that its bytes spell. Hex decoding and the
-- binary marshalling of a transaction are go-ethereum's and enter as the record `Marshaller`.
pub mod Bitmap
pub mod CodecV0
pub mod CodecV1
pub mod Tests
use Prim.Native.String.{String}
use text.Mathlib.Text.{◌==◌ as str_eq}
use scroll.Common.{
  ℕ, Bool, true, false, not, Option, none, some, List, [], ◌∷◌, length, ltb, ◌==◌, if◌then◌else◌,
  Outcome, ok, err, ◌>>=◌, u64, add64, sub64,
}

pub data CodecVersion : Type 0 where
  codec_v0 codec_v1 : CodecVersion

-- The transaction types that the code names; `other_tx` is any other type byte.
pub data TxType : Type 0 where
  legacy access_list dynamic_fee l1_message other_tx : TxType

pub record TransactionData : Type 0 where
  pub tx_type : TxType
  pub nonce : ℕ
  pub tx_hash : String
  pub input : String  -- the field `Data`, in hexadecimal

pub record SubCircuit : Type 0 where
  pub name : String
  pub row_number : ℕ

pub record Header : Type 0 where
  pub number : ℕ
  pub time : ℕ
  pub base_fee : Option ℕ
  pub gas_limit : ℕ
  pub gas_used : ℕ
  pub root : ℕ

pub record Block : Type 0 where
  pub header : Header
  pub transactions : List TransactionData
  pub withdraw_root : ℕ
  pub row_consumption : Option (List SubCircuit)

abbrev pub Chunk : Type 0
Chunk = List Block

pub record Batch : Type 0 where
  pub index : ℕ
  pub total_l1_message_popped_before : ℕ
  pub parent_batch_hash : ℕ
  pub chunks : List Chunk

abbrev pub is_l1_message : TransactionData → Bool
is_l1_message tx = elim tx.tx_type [ l1_message ↦ true | _ ↦ false ]

-- The loop of `Block.NumL1Messages`.
pub last_queue_index : Option ℕ → List TransactionData → Option ℕ
last_queue_index found [] = found
last_queue_index found (tx ∷ txs) =
    last_queue_index (if is_l1_message tx then some tx.nonce else found) txs

pub count_from_index : Option ℕ → ℕ → ℕ
count_from_index none popped = 0
count_from_index (some last) popped = add64 (sub64 last popped) 1

-- (b *Block) NumL1Messages
unfoldable pub block_num_l1_messages : Block → ℕ → ℕ
unfolding last_queue_index count_from_index
block_num_l1_messages b popped = count_from_index (last_queue_index none b.transactions) popped

pub count_l2 : List TransactionData → ℕ
count_l2 [] = 0
count_l2 (tx ∷ txs) = let rest = count_l2 txs in if is_l1_message tx then rest else add64 rest 1

-- (b *Block) NumL2Transactions
unfoldable pub block_num_l2_transactions : Block → ℕ
unfolding count_l2
block_num_l2_transactions b = count_l2 b.transactions

-- The loop of `Chunk.NumL1Messages`, with the two variables that it updates.
pub chunk_num_l1_from : ℕ → ℕ → Chunk → ℕ
chunk_num_l1_from num popped [] = num
chunk_num_l1_from num popped (b ∷ bs) =
    let n = block_num_l1_messages b popped in chunk_num_l1_from (add64 num n) (add64 popped n) bs

-- (c *Chunk) NumL1Messages
unfoldable pub chunk_num_l1_messages : Chunk → ℕ → ℕ
unfolding chunk_num_l1_from
chunk_num_l1_messages c popped = chunk_num_l1_from 0 popped c

-- (c *Chunk) NumTransactions
unfoldable pub num_transactions : Chunk → ℕ
num_transactions [] = 0
num_transactions (b ∷ bs) = add64 (length b.transactions) (num_transactions bs)

-- (c *Chunk) NumL2Transactions
unfoldable pub num_l2_transactions : Chunk → ℕ
num_l2_transactions [] = 0
num_l2_transactions (b ∷ bs) = add64 (block_num_l2_transactions b) (num_l2_transactions bs)

-- (c *Chunk) L2GasUsed
unfoldable pub l2_gas_used : Chunk → ℕ
l2_gas_used [] = 0
l2_gas_used (b ∷ bs) = add64 b.header.gas_used (l2_gas_used bs)

pub data EncodingError : Type 0 where
  data_not_hex unsupported_tx_type marshal_failed : EncodingError
  nil_transaction : EncodingError  -- a method call on a nil `*types.Transaction`, which panics
  nil_row_consumption : EncodingError
  block_number_not_uint64 too_many_l1_messages too_many_transactions : EncodingError
  chunk_is_empty too_many_blocks : EncodingError
  hash_not_hex insufficient_data unexpected_queue_index : EncodingError
  unexpected_hash too_many_chunks too_few_chunks oversized_payload no_commitment : EncodingError

-- What go-ethereum provides: decoding of hexadecimal text, and the marshalling of a transaction
-- of a given type with decoded input.
pub record Marshaller : Type 0 where
  pub hex_decode : String → Option (List ℕ)
  pub marshal : TransactionData → List ℕ → Option (List ℕ)

pub marshal_as : Marshaller → TransactionData → List ℕ → Outcome EncodingError (List ℕ)
marshal_as m tx input = elim (m.marshal tx input) [ none ↦ err marshal_failed | some bs ↦ ok bs ]

-- The switch on the type. The case of an L1 message builds no transaction, and the code goes on
-- to marshal the nil pointer.
pub convert_by_type :
    Marshaller → TxType → TransactionData → List ℕ → Outcome EncodingError (List ℕ)
unfolding marshal_as
convert_by_type m legacy tx input = marshal_as m tx input
convert_by_type m access_list tx input = marshal_as m tx input
convert_by_type m dynamic_fee tx input = marshal_as m tx input
convert_by_type m l1_message tx input = err nil_transaction
convert_by_type m other_tx tx input = err unsupported_tx_type

-- ConvertTxDataToRLPEncoding
unfoldable pub convert_tx_data_to_rlp_encoding :
    Marshaller → TransactionData → Outcome EncodingError (List ℕ)
unfolding convert_by_type
convert_tx_data_to_rlp_encoding m tx = elim (m.hex_decode tx.input) [
  | none ↦ err data_not_hex
  | some input ↦ convert_by_type m tx.tx_type tx input
]

-- map[string]uint64, with the addition of a row count to its entry.
pub add_rows : String → ℕ → List (String × ℕ) → List (String × ℕ)
add_rows name rows [] = (name, u64 rows) ∷ []
add_rows name rows ((j, n) ∷ r) =
    if str_eq j name then (j, add64 n rows) ∷ r else (j, n) ∷ add_rows name rows r

pub add_block_rows : List SubCircuit → List (String × ℕ) → List (String × ℕ)
unfolding add_rows
add_block_rows [] crc = crc
add_block_rows (c ∷ cs) crc = add_block_rows cs (add_rows c.name c.row_number crc)

pub collect_rows : Chunk → List (String × ℕ) → Outcome EncodingError (List (String × ℕ))
collect_rows [] crc = ok crc
collect_rows (b ∷ bs) crc = elim b.row_consumption [
  | none ↦ err nil_row_consumption
  | some cs ↦ collect_rows bs (add_block_rows cs crc)
]

pub max_value : ℕ → List (String × ℕ) → ℕ
max_value best [] = best
max_value best ((name, value) ∷ r) = max_value (if ltb best value then value else best) r

-- (c *Chunk) CrcMax
unfoldable pub crc_max : Chunk → Outcome EncodingError ℕ
unfolding collect_rows add_block_rows max_value
crc_max c = collect_rows c [] >>= λ crc. ok (max_value 0 crc)

-- ===== src/Encoding/Tests.antt =====
-- Concrete runs of common/types/encoding.

use scroll.Common.{
  ℕ, ◌+◌, ◌<◌, ◌≡◌, refl, true, not, ◌&&◌, none, some, List, [], ◌∷◌, length, replicate, put_uint,
  ◌++◌, arith, ltb, u64, u64_mod, ◌-◌, ok, is_ok, if◌then◌else◌,
}
use scroll.Encoding.{
  legacy, l1_message, TransactionData, Header, Block, Marshaller, block_num_l1_messages,
  block_num_l2_transactions, convert_tx_data_to_rlp_encoding,
}
use scroll.Encoding.Bitmap.{construct_skipped_bitmap, bitmap_bytes}
use scroll.Encoding.Bitmap.Marks.{bit_at}
use scroll.Encoding.Bitmap.Skipped.{
  batch_txs, includes, is_queue, construct_skipped_bitmap-bits, construct_skipped_bitmap-is_queue,
}
use scroll.Encoding.CodecV0.{
  DaBlock, DaChunk, DaBatch, new_da_block, new_da_chunk, encode_chunk, encode_batch,
  new_da_batch_from_bytes,
}
use scroll.Encoding.CodecV0.BatchBytes.{decode-encode_batch}
use scroll.Encoding.CodecV0.Gas.{estimate_chunk_size}
use scroll.Encoding.CodecV0.Sizes.{estimate_chunk_size-encode_chunk}

abbrev header : Header
header = record {
  number = 7;
  time = 1000;
  base_fee = none;
  gas_limit = 100;
  gas_used = 50;
  root = 0;
}

abbrev l1_tx : TransactionData
l1_tx = record { tx_type = l1_message; nonce = 3; tx_hash = "0x01"; input = "0x" }

abbrev l2_tx : TransactionData
l2_tx = record { tx_type = legacy; nonce = 9; tx_hash = "0x02"; input = "0x" }

abbrev block : Block
block = record {
  header = header;
  transactions = l1_tx ∷ l2_tx ∷ [];
  withdraw_root = 0;
  row_consumption = none;
}

-- The messages 1 and 2 are skipped.
abbrev skipped_bytes : List ℕ
skipped_bytes = replicate 31 0 ++ 3 ∷ []

skipped : construct_skipped_bitmap ((block ∷ []) ∷ []) 1 ≡ ok (skipped_bytes, 4)
unfolding construct_skipped_bitmap put_uint
skipped = refl

small : (i : ℕ) → includes i (batch_txs ((block ∷ []) ∷ [])) ≡ true → i + 1 < u64_mod
small i e = ground arith

construct_skipped_bitmap-bits_example :
    (words : List ℕ) × (skipped_bytes ≡ bitmap_bytes words)
    × ((k : ℕ)
        → bit_at words k ≡ (
            if ltb (1 + k) 4 && not (includes (1 + k) (batch_txs ((block ∷ []) ∷ [])))
            then 1
            else 0))
construct_skipped_bitmap-bits_example =
    construct_skipped_bitmap-bits ((block ∷ []) ∷ []) 1 skipped_bytes 4 (omega arith) small skipped

-- The message 3 cannot follow four messages.
construct_skipped_bitmap-is_queue_example :
    is_ok (construct_skipped_bitmap ((block ∷ []) ∷ []) 4)
    ≡ is_queue 4 (batch_txs ((block ∷ []) ∷ []))
construct_skipped_bitmap-is_queue_example = construct_skipped_bitmap-is_queue ((block ∷ []) ∷ []) 4

abbrev batch : DaBatch
batch = record {
  version = 0;
  batch_index = 258;
  l1_message_popped = 3;
  total_l1_message_popped = 4;
  data_hash = 77;
  parent_batch_hash = 1000;
  skipped_l1_message_bitmap = skipped_bytes;
}

decode-encode_batch_example : new_da_batch_from_bytes (encode_batch batch) ≡ ok batch
decode-encode_batch_example = decode-encode_batch batch (record {
  version = omega arith;
  batch_index = omega arith;
  l1_message_popped = omega arith;
  total_l1_message_popped = omega arith;
  data_hash = omega arith;
  parent_batch_hash = omega arith;
})

-- Every transaction marshals to three bytes.
abbrev three_bytes : Marshaller
three_bytes = record { hex_decode = λ s. some []; marshal = λ tx input. some (1 ∷ 2 ∷ 3 ∷ []) }

abbrev da_block : DaBlock
da_block = record {
  block_number = 7;
  timestamp = 1000;
  base_fee = none;
  gas_limit = 100;
  num_transactions = 4;
  num_l1_messages = 3;
}

abbrev da_chunk : DaChunk
da_chunk = record { blocks = da_block ∷ []; transactions = (l1_tx ∷ l2_tx ∷ []) ∷ [] }

abbrev chunk_bytes : List ℕ
chunk_bytes =
    1 ∷ replicate 7 0
    ++ 7 ∷ replicate 6 0
    ++ 3 ∷ 232 ∷ replicate 39 0
    ++ 100 ∷ 0 ∷ 4 ∷ 0 ∷ 3 ∷ 0 ∷ 0 ∷ 0 ∷ 3 ∷ 1 ∷ 2 ∷ 3 ∷ []

built : new_da_chunk (block ∷ []) 1 ≡ ok da_chunk
unfolding new_da_chunk new_da_block block_num_l1_messages block_num_l2_transactions
built = refl

encoded : encode_chunk three_bytes da_chunk ≡ ok chunk_bytes
unfolding encode_chunk convert_tx_data_to_rlp_encoding put_uint
encoded = refl

estimate_chunk_size-encode_chunk_example :
    estimate_chunk_size three_bytes (block ∷ []) ≡ ok (u64 (length chunk_bytes - 1))
estimate_chunk_size-encode_chunk_example =
    estimate_chunk_size-encode_chunk three_bytes (block ∷ []) 1 da_chunk chunk_bytes built encoded

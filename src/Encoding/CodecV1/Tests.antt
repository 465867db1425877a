-- ===== src/Encoding/CodecV1/Tests.antt =====
-- A concrete blob of common/types/encoding/codecv1/codecv1.go.
use scroll.Common.{ℕ, ◌≡◌, refl, none, some, List, [], ◌∷◌, length, arith, ok}
use scroll.Encoding.{
  legacy, l1_message, TransactionData, Block, Chunk, Marshaller, convert_tx_data_to_rlp_encoding,
}
use scroll.Encoding.CodecV0.{Hasher}
use scroll.Encoding.CodecV1.{chunk_payloads, join_all, estimate_batch_l1_commit_blob_size}
use scroll.Encoding.CodecV1.Blob.{IsBlobOf, construct_blob_payload-IsBlobOf}

abbrev block : TransactionData → Block
block tx = record {
  header = record {
    number = 7;
    time = 1000;
    base_fee = none;
    gas_limit = 100;
    gas_used = 50;
    root = 0;
  };
  transactions =
      record { tx_type = l1_message; nonce = 3; tx_hash = "0x01"; input = "0x" } ∷ tx ∷ [];
  withdraw_root = 0;
  row_consumption = none;
}

abbrev l2_tx : ℕ → TransactionData
l2_tx nonce = record { tx_type = legacy; nonce = nonce; tx_hash = "0x02"; input = "0x" }

abbrev marshaller : Marshaller
marshaller = record { hex_decode = λ s. some []; marshal = λ tx input. some (192 ∷ tx.nonce ∷ []) }

abbrev hasher : Hasher
hasher = record { keccak256 = length; decode_hash = λ s. none }

-- Two chunks of one block each.
abbrev two_chunks : List Chunk
two_chunks = (block (l2_tx 1) ∷ []) ∷ (block (l2_tx 2) ∷ []) ∷ []

abbrev two_payloads : List (List ℕ)
two_payloads = (192 ∷ 1 ∷ []) ∷ (192 ∷ 2 ∷ []) ∷ []

two_chunks_encoded : chunk_payloads marshaller two_chunks ≡ ok two_payloads
unfolding chunk_payloads convert_tx_data_to_rlp_encoding
two_chunks_encoded = refl

construct_blob_payload-IsBlobOf_example :
    (size : ℕ) × (estimate_batch_l1_commit_blob_size marshaller two_chunks ≡ ok size)
    × IsBlobOf marshaller hasher two_chunks two_payloads size
unfolding join_all
construct_blob_payload-IsBlobOf_example =
    construct_blob_payload-IsBlobOf marshaller hasher two_chunks two_payloads two_chunks_encoded
      (omega arith) (omega arith)

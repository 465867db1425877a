-- ===== src/Encoding/CodecV0/Sizes.antt =====
-- The estimated calldata size of a chunk against the length of its encoding:
-- common/types/encoding/codecv0/codecv0.go.
use scroll.Common.{
  ℕ, suc, ◌+◌, ◌*◌, ◌-◌, ◌<◌, ◌≡◌, refl, ◌∙◌, ap, sym, List, [], ◌∷◌, ◌++◌, map, arith, length,
  length-append, length-put_uint, length-replicate, none, some, Option, Bool-cases, inl, inr, ltb,
  ok, ◌>>=◌, >>=-eq-ok, ok-injective, put_uint, u64, u64_mod, add64,
}
use scroll.Encoding.{
  TransactionData, Chunk, is_l1_message, block_num_l1_messages, Marshaller,
  convert_tx_data_to_rlp_encoding,
}
use scroll.Encoding.CodecV0.{
  DaBlock, DaChunk, new_da_block, new_da_blocks, new_da_chunk, base_fee_bytes, encode_block,
  encode_blocks, encode_tx, encode_txs, encode_tx_lists, encode_chunk,
}
use scroll.Encoding.CodecV0.Gas.{
  get_tx_payload_length, block_size_from, chunk_size_from, estimate_chunk_size,
}

length-base_fee_bytes : (fee : Option ℕ) → length (base_fee_bytes fee) ≡ 8
length-base_fee_bytes none = refl
length-base_fee_bytes (some fee) = length-put_uint 8 (u64 fee)

length-field : (w x : ℕ) (rest : List ℕ) → length (put_uint w x ++ rest) ≡ w + length rest
length-field w x rest = omega (arith, length-append (put_uint w x) rest, length-put_uint w x)

-- A block context has 60 bytes, whether or not the block has a base fee.
pub length-encode_block : (b : DaBlock) → length (encode_block b) ≡ 60
unfolding encode_block
length-encode_block b =
    omega (arith, length-append {0}, length-put_uint, length-base_fee_bytes, length-replicate {0})

length-encode_blocks : (bs : List DaBlock) → length (encode_blocks bs) ≡ 60 * length bs
unfolding encode_blocks
length-encode_blocks [] = refl
length-encode_blocks (b ∷ bs) = omega (
  arith,
  length-append (encode_block b) (encode_blocks bs),
  length-encode_block b,
  length-encode_blocks bs,
)

module _ (m : Marshaller) where
  -- What a transaction adds to the encoding is what it adds to the estimate.
  size-encode_tx :
      (tx : TransactionData) (bs : List ℕ)
      → encode_tx m tx ≡ ok bs
      → (n : ℕ) × (get_tx_payload_length m tx ≡ ok n) × (length bs ≡ 4 + n)
  unfolding encode_tx get_tx_payload_length
  size-encode_tx tx bs e =
      let (rlp, converted, written) = >>=-eq-ok (convert_tx_data_to_rlp_encoding m tx) _ e in
      (
        length rlp,
        ap (λ r. r >>= λ rlp. ok (length rlp)) converted,
        ap length (sym (ok-injective written)) ∙ length-field 4 (length rlp) rlp,
      )

  size-encode_txs :
      (txs : List TransactionData) (size : ℕ) (bs : List ℕ)
      → size < u64_mod
      → encode_txs m txs ≡ ok bs
      → block_size_from m size txs ≡ ok (u64 (size + length bs))
  unfolding encode_txs block_size_from
  size-encode_txs [] size bs h e = ap (λ n. ok n) (omega (arith, ap length (ok-injective e)))
  size-encode_txs (tx ∷ txs) size bs h e = elim (Bool-cases (is_l1_message tx)) [
    | inl l1 ↦ rw l1 (size-encode_txs txs size bs h (rw l1 at e))
    | inr l2 ↦
        let (b1, first, e1) = >>=-eq-ok (encode_tx m tx) _ (rw l2 at e) in
        let (r, rest, e2) = >>=-eq-ok (encode_txs m txs) _ e1 in
        let (n, payload, width) = size-encode_tx tx b1 first in
        rw (l2, payload)
          (size-encode_txs txs (add64 (add64 size 4) n) r (omega arith) rest
            ∙ ap (λ k. ok k)
                (omega (arith, width, length-append b1 r, ap length (ok-injective e2))))
  ]

  size-encode_lists :
      (c : Chunk) (total : ℕ) (bs : List ℕ)
      → total < u64_mod
      → encode_tx_lists m (map (λ b. b.transactions) c) ≡ ok bs
      → chunk_size_from m total c ≡ ok (u64 (total + 60 * length c + length bs))
  unfolding encode_tx_lists chunk_size_from
  size-encode_lists [] total bs h e = ap (λ n. ok n) (omega (arith, ap length (ok-injective e)))
  size-encode_lists (b ∷ c) total bs h e =
      let (b1, first, e1) = >>=-eq-ok (encode_txs m b.transactions) _ e in
      let (r, rest, e2) = >>=-eq-ok (encode_tx_lists m (map (λ b. b.transactions) c)) _ e1 in
      rw (size-encode_txs b.transactions 0 b1 (omega arith) first) (
        size-encode_lists c (add64 total (add64 (u64 (0 + length b1)) 60)) r (omega arith) rest
        ∙ ap (λ k. ok k) (omega (arith, length-append b1 r, ap length (ok-injective e2))))

new_da_blocks_shape :
    (c : Chunk) (popped : ℕ) (r : List DaBlock × List (List TransactionData))
    → new_da_blocks c popped ≡ ok r
    → (length r.0 ≡ length c) × (r.1 ≡ map (λ b. b.transactions) c)
unfolding new_da_blocks
new_da_blocks_shape [] popped r e =
    (ap (λ t. length t.0) (sym (ok-injective e)), ap (λ t. t.1) (sym (ok-injective e)))
new_da_blocks_shape (b ∷ c) popped r e =
    let (da, first, e1) = >>=-eq-ok (new_da_block b popped) _ e in
    let (s, rest, e2) =
      >>=-eq-ok (new_da_blocks c (add64 popped (block_num_l1_messages b popped))) _ e1 in
    let (len, txs) = new_da_blocks_shape c (add64 popped (block_num_l1_messages b popped)) s rest in
    (
      ap (λ t. length t.0) (sym (ok-injective e2)) ∙ ap suc len,
      ap (λ t. t.1) (sym (ok-injective e2)) ∙ ap (λ t. b.transactions ∷ t) txs,
    )

new_da_chunk_shape :
    (c : Chunk) (popped : ℕ) (da : DaChunk)
    → new_da_chunk c popped ≡ ok da
    → (length da.blocks ≡ length c) × (da.transactions ≡ map (λ b. b.transactions) c)
unfolding new_da_chunk
new_da_chunk_shape [] popped da e = absurd (cc)
new_da_chunk_shape (b ∷ c) popped da e = elim (Bool-cases (ltb 255 (length (b ∷ c)))) [
  | inl long ↦ absurd (cc (rw long at e))
  | inr fits ↦
      let (r, built, out) = >>=-eq-ok (new_da_blocks (b ∷ c) popped) _ (rw fits at e) in
      let (len, txs) = new_da_blocks_shape (b ∷ c) popped r built in
      (
        ap (λ t. length t.blocks) (sym (ok-injective out)) ∙ len,
        ap (λ t. t.transactions) (sym (ok-injective out)) ∙ txs,
      )
]

-- If a chunk is encoded, for whatever marshalling of transactions, then its estimated calldata
-- size is returned and is the length of the encoding, less the byte that counts the blocks
-- (modulo 2^64).
pub estimate_chunk_size-encode_chunk :
    (m : Marshaller) (c : Chunk) (popped : ℕ) (da : DaChunk) (bytes : List ℕ)
    → new_da_chunk c popped ≡ ok da
    → encode_chunk m da ≡ ok bytes
    → estimate_chunk_size m c ≡ ok (u64 (length bytes - 1))
unfolding encode_chunk estimate_chunk_size
estimate_chunk_size-encode_chunk m c popped da bytes built encoded =
    let (len, txs) = new_da_chunk_shape c popped da built in
    let (bs, e, out) = >>=-eq-ok (encode_tx_lists m da.transactions) _ encoded in
    size-encode_lists m c 0 bs (omega arith) (rw txs at e)
    ∙ ap (λ k. ok k)
        (omega (
          arith,
          ap length (ok-injective out),
          length-append (encode_blocks da.blocks) bs,
          length-encode_blocks da.blocks,
          len,
        ))

-- ===== src/Encoding/Bitmap.antt =====
-- The bitmap of skipped L1 messages: common/types/encoding/bitmap.go.
-- A 256-bit word of the bitmap is a number. `big.Int.SetBit` and the reading of a bit recur on
-- the binary digits.
pub mod Marks
pub mod Skipped
use scroll.Common.{
  ℕ, zero, suc, ◌+◌, ◌-◌, ◌*◌, ◌/◌, ◌%◌, Bool, true, false, List, [], ◌∷◌, ◌++◌, length, get_or,
  replicate, ltb, ◌==◌, if◌then◌else◌, Outcome, ok, err, ◌>>=◌, u64, add64, sub64, put_uint,
}
use scroll.Encoding.{
  TransactionData, Block, Chunk, is_l1_message, EncodingError, unexpected_queue_index,
}

-- (x >> i) & 1
pub bit : ℕ → ℕ → ℕ
bit x zero = x % 2
bit x (suc i) = bit (x / 2) i

-- x.SetBit(x, i, 1)
pub set_bit : ℕ → ℕ → ℕ
set_bit x zero = x / 2 * 2 + 1
set_bit x (suc i) = set_bit (x / 2) i * 2 + x % 2

-- Words are appended while `len(skippedBitmap) <= quo`.
pub grow : ℕ → List ℕ → List ℕ
grow quo words = words ++ replicate (quo + 1 - length words) 0

-- skippedBitmap[quo].SetBit(skippedBitmap[quo], rem, 1)
pub set_bit_at : ℕ → ℕ → List ℕ → List ℕ
set_bit_at quo rem [] = []
set_bit_at zero rem (w ∷ ws) = set_bit w rem ∷ ws
set_bit_at (suc quo) rem (w ∷ ws) = w ∷ set_bit_at quo rem ws

pub mark_one : ℕ → ℕ → List ℕ → List ℕ
unfolding set_bit grow set_bit_at
mark_one base index words =
    let offset = sub64 index base in
    set_bit_at (offset / 256) (offset % 256) (grow (offset / 256) words)

-- The loop `for skippedIndex := nextIndex; skippedIndex < currentIndex; skippedIndex++`, which
-- makes `n` rounds from `index`.
pub mark_skipped : ℕ → ℕ → ℕ → List ℕ → List ℕ
mark_skipped base index zero words = words
mark_skipped base index (suc n) words = mark_skipped base (index + 1) n (mark_one base index words)

-- One transaction, with the bitmap and the next queue index so far.
pub mark_tx : ℕ → TransactionData → List ℕ × ℕ → Outcome EncodingError (List ℕ × ℕ)
unfolding mark_one mark_skipped
mark_tx base tx (words, next) =
    if is_l1_message tx
    then (if ltb tx.nonce next
        then err unexpected_queue_index
        else ok (
          grow (sub64 tx.nonce base / 256) (mark_skipped base next (tx.nonce - next) words),
          add64 tx.nonce 1,
        ))
    else ok (words, next)

pub mark_txs : ℕ → List TransactionData → List ℕ × ℕ → Outcome EncodingError (List ℕ × ℕ)
unfolding mark_tx
mark_txs base [] s = ok s
mark_txs base (tx ∷ txs) s = mark_tx base tx s >>= λ s'. mark_txs base txs s'

pub mark_blocks : ℕ → List Block → List ℕ × ℕ → Outcome EncodingError (List ℕ × ℕ)
unfolding mark_txs
mark_blocks base [] s = ok s
mark_blocks base (b ∷ bs) s = mark_txs base b.transactions s >>= λ s'. mark_blocks base bs s'

pub mark_chunks : ℕ → List Chunk → List ℕ × ℕ → Outcome EncodingError (List ℕ × ℕ)
unfolding mark_blocks
mark_chunks base [] s = ok s
mark_chunks base (c ∷ cs) s = mark_blocks base c s >>= λ s'. mark_chunks base cs s'

-- Each word as 32 bytes, padded on the left.
pub bitmap_bytes : List ℕ → List ℕ
bitmap_bytes [] = []
bitmap_bytes (w ∷ ws) = put_uint 32 w ++ bitmap_bytes ws

-- ConstructSkippedBitmap
unfoldable pub construct_skipped_bitmap : List Chunk → ℕ → Outcome EncodingError (List ℕ × ℕ)
unfolding mark_chunks bitmap_bytes
construct_skipped_bitmap chunks popped =
    mark_chunks popped chunks ([], popped) >>= λ r. ok (bitmap_bytes r.0, r.1)

-- ===== src/Encoding/Bitmap/Skipped.antt =====
-- The bitmap of a batch marks exactly the skipped queue indices, and is built exactly if the
-- queue indices of the batch are in order: common/types/encoding/bitmap.go.
use mathlib.Core.Path.{fun_ext}
use scroll.Common.{
  ℕ, ◌+◌, ◌-◌, ◌/◌, ◌%◌, ◌<◌, ◌≤◌, ◌≡◌, refl, ◌∙◌, ap, sym, subst, Bool, true, false, not, ◌&&◌,
  ◌||◌, List, [], ◌∷◌, ◌++◌, arith, ltb, leb, ◌==◌, if◌then◌else◌, or_false, or_true, Bool-cases,
  inl, inr, u64_mod, add64, sub64, Outcome, ok, err, ◌>>=◌, is_ok, bind_ext, bind_assoc, >>=-eq-ok,
  ok-injective,
}
use scroll.Encoding.{TransactionData, Block, Chunk, is_l1_message, EncodingError}
use scroll.Encoding.Bitmap.{
  grow, mark_skipped, mark_tx, mark_txs, mark_blocks, mark_chunks, bitmap_bytes,
  construct_skipped_bitmap,
}
use scroll.Encoding.Bitmap.Marks.{bit_at, bit_at-grow, bit_at-mark_skipped, bit-zero}

-- The transactions of a batch, in the order in which the code visits them.
abbrev pub block_txs : List Block → List TransactionData
block_txs [] = []
block_txs (b ∷ bs) = b.transactions ++ block_txs bs

abbrev pub batch_txs : List Chunk → List TransactionData
batch_txs [] = []
batch_txs (c ∷ cs) = block_txs c ++ batch_txs cs

mark_txs-append :
    (base : ℕ) (xs ys : List TransactionData) (s : List ℕ × ℕ)
    → mark_txs base (xs ++ ys) s ≡ (mark_txs base xs s >>= λ t. mark_txs base ys t)
unfolding mark_txs
mark_txs-append base [] ys s = refl
mark_txs-append base (x ∷ xs) ys s =
    bind_ext (mark_tx base x s) _ _ (λ t. mark_txs-append base xs ys t)
    ∙ sym (bind_assoc (mark_tx base x s) _ _)

mark_blocks-txs :
    (base : ℕ) (bs : List Block) (s : List ℕ × ℕ)
    → mark_blocks base bs s ≡ mark_txs base (block_txs bs) s
unfolding mark_blocks mark_txs
mark_blocks-txs base [] s = refl
mark_blocks-txs base (b ∷ bs) s =
    bind_ext (mark_txs base b.transactions s) _ _ (λ t. mark_blocks-txs base bs t)
    ∙ sym (mark_txs-append base b.transactions (block_txs bs) s)

mark_chunks-txs :
    (base : ℕ) (cs : List Chunk) (s : List ℕ × ℕ)
    → mark_chunks base cs s ≡ mark_txs base (batch_txs cs) s
unfolding mark_chunks mark_txs
mark_chunks-txs base [] s = refl
mark_chunks-txs base (c ∷ cs) s =
    (ap (λ m. m >>= λ t. mark_chunks base cs t) (mark_blocks-txs base c s)
      ∙ bind_ext (mark_txs base (block_txs c) s) _ _ (λ t. mark_chunks-txs base cs t))
    ∙ sym (mark_txs-append base (block_txs c) (batch_txs cs) s)

-- Whether a queue index is that of an L1 message among the transactions.
abbrev pub includes : ℕ → List TransactionData → Bool
includes i [] = false
includes i (tx ∷ txs) = (is_l1_message tx && tx.nonce == i) || includes i txs

-- Bit `k` is set exactly if the index `base + k` lies below `next` and was not seen.
record IsMarked (base : ℕ) (seen : ℕ → Bool) (words : List ℕ) (next : ℕ) : Type 0 where
  base_le : base ≤ next
  small : next < u64_mod
  seen_below : (i : ℕ) → seen i ≡ true → i < next
  bits : (k : ℕ) → bit_at words k ≡ (if ltb (base + k) next && not (seen (base + k)) then 1 else 0)

module _ (base : ℕ) (seen : ℕ → Bool) (tx : TransactionData) (words : List ℕ) (next : ℕ) where
  mark_tx_words :
      tx.nonce < u64_mod
      → base ≤ next
      → next ≤ tx.nonce
      → (k : ℕ)
      → bit_at (grow (sub64 tx.nonce base / 256) (mark_skipped base next (tx.nonce - next) words)) k
        ≡ (if leb next (base + k) && ltb (base + k) tx.nonce then 1 else bit_at words k)
  mark_tx_words small le low k =
      bit_at-grow (sub64 tx.nonce base / 256) (mark_skipped base next (tx.nonce - next) words) k
      ∙ bit_at-mark_skipped base next (tx.nonce - next) words k le (omega arith)
      ∙ ground arith

  IsMarked-l1_message :
      tx.nonce + 1 < u64_mod
      → next ≤ tx.nonce
      → IsMarked base seen words next
      → IsMarked base
          (λ i. seen i || tx.nonce == i)
          (grow (sub64 tx.nonce base / 256) (mark_skipped base next (tx.nonce - next) words))
          (add64 tx.nonce 1)
  IsMarked-l1_message small low h = record {
    base_le = omega (arith, h.base_le);
    small = omega arith;
    seen_below = λ i s. ground (arith, h.seen_below i);
    bits = λ k.
        mark_tx_words (omega arith) h.base_le low k
        ∙ ground (arith, h.bits k, h.seen_below (base + k), h.base_le);
  }

IsMarked-ext :
    (base : ℕ) (seen seen' : ℕ → Bool) (words : List ℕ) (next : ℕ)
    → ((i : ℕ) → seen i ≡ seen' i)
    → IsMarked base seen words next
    → IsMarked base seen' words next
IsMarked-ext base seen seen' words next same h =
    subst (λ f. IsMarked base f words next) (fun_ext same) h

IsMarked-mark_tx :
    (base : ℕ) (seen : ℕ → Bool) (tx : TransactionData) (words : List ℕ) (next : ℕ)
    (words' : List ℕ) (next' : ℕ)
    → (is_l1_message tx ≡ true → tx.nonce + 1 < u64_mod)
    → mark_tx base tx (words, next) ≡ ok (words', next')
    → IsMarked base seen words next
    → IsMarked base (λ i. seen i || (is_l1_message tx && tx.nonce == i)) words' next'
unfolding mark_tx
IsMarked-mark_tx base seen tx words next words' next' small e h =
    elim (Bool-cases (is_l1_message tx)) [
      | inl l1 ↦ elim (Bool-cases (ltb tx.nonce next)) [
        | inl low ↦ absurd (cc (rw (l1, low) at e))
        | inr high ↦
            let p = ok-injective (rw (l1, high) at e) in
            rw l1 (
              subst (λ (s : List ℕ × ℕ). IsMarked base (λ i. seen i || tx.nonce == i) s.0 s.1) p
                (IsMarked-l1_message base seen tx words next (small l1) (ground arith) h))
      ]
      | inr l2 ↦
          let p = ok-injective (rw l2 at e) in
          IsMarked-ext base seen (λ i. seen i || (is_l1_message tx && tx.nonce == i)) words' next'
            (λ i. rw l2 (sym (or_false (seen i))))
            (subst (λ (s : List ℕ × ℕ). IsMarked base seen s.0 s.1) p h)
    ]

IsMarked-mark_txs :
    (base : ℕ) (txs : List TransactionData) (seen : ℕ → Bool) (words : List ℕ) (next : ℕ)
    (words' : List ℕ) (next' : ℕ)
    → ((i : ℕ) → includes i txs ≡ true → i + 1 < u64_mod)
    → mark_txs base txs (words, next) ≡ ok (words', next')
    → IsMarked base seen words next
    → IsMarked base (λ i. seen i || includes i txs) words' next'
unfolding mark_txs
IsMarked-mark_txs base [] seen words next words' next' small e h =
    IsMarked-ext base seen (λ i. seen i || false) words' next' (λ i. sym (or_false (seen i)))
      (subst (λ (s : List ℕ × ℕ). IsMarked base seen s.0 s.1) (ok-injective e) h)
IsMarked-mark_txs base (tx ∷ txs) seen words next words' next' small e h =
    let (s, first, rest) = >>=-eq-ok (mark_tx base tx (words, next)) _ e in
    IsMarked-ext base (λ i. (seen i || (is_l1_message tx && tx.nonce == i)) || includes i txs)
      (λ i. seen i || includes i (tx ∷ txs)) words' next' (λ i. ground arith)
      (IsMarked-mark_txs base txs (λ i. seen i || (is_l1_message tx && tx.nonce == i)) s.0 s.1
        words' next' (λ i m. small i (rw m (or_true _))) rest
        (IsMarked-mark_tx base seen tx words next s.0 s.1 (λ l1. small tx.nonce (ground arith))
          first h))

IsMarked-start : (base : ℕ) → base < u64_mod → IsMarked base (λ i. false) [] base
IsMarked-start base h = record {
  base_le = omega arith;
  small = h;
  seen_below = λ i s. cc;
  bits = λ k. ground (arith, bit-zero (k % 256));
}

-- Whatever the chunks, if the bitmap is built then its bytes are those of words in which bit `k`
-- is 1 exactly if the queue index `popped + k` lies below the returned next index and is not the
-- index of an L1 message in the chunks. The premises keep queue indices below the largest uint64.
pub construct_skipped_bitmap-bits :
    (chunks : List Chunk) (popped : ℕ) (bytes : List ℕ) (next : ℕ)
    → popped < u64_mod
    → ((i : ℕ) → includes i (batch_txs chunks) ≡ true → i + 1 < u64_mod)
    → construct_skipped_bitmap chunks popped ≡ ok (bytes, next)
    → (words : List ℕ) × (bytes ≡ bitmap_bytes words)
      × ((k : ℕ)
          → bit_at words k ≡ (
              if ltb (popped + k) next && not (includes (popped + k) (batch_txs chunks))
              then 1
              else 0))
unfolding construct_skipped_bitmap
construct_skipped_bitmap-bits chunks popped bytes next low small e =
    let (r, marked, out) = >>=-eq-ok (mark_chunks popped chunks ([], popped)) _ e in
    let m =
      IsMarked-mark_txs popped (batch_txs chunks) (λ i. false) [] popped r.0 r.1 small
        (sym (mark_chunks-txs popped chunks ([], popped)) ∙ marked) (IsMarked-start popped low) in
    (
      r.0,
      ap (λ p. p.0) (sym (ok-injective out)),
      λ k.
          m.bits k
          ∙ ap
              (λ n.
                if ltb (popped + k) n && not (includes (popped + k) (batch_txs chunks))
                then 1
                else 0)
              (ap (λ p. p.1) (ok-injective out)),
    )

-- The L1 messages carry queue indices from `next` on, each above the one before.
abbrev pub is_queue : ℕ → List TransactionData → Bool
is_queue next [] = true
is_queue next (tx ∷ txs) =
    (not (is_l1_message tx) || leb next tx.nonce)
    && is_queue (if is_l1_message tx then add64 tx.nonce 1 else next) txs

mark_txs-is_queue :
    (base : ℕ) (txs : List TransactionData) (words : List ℕ) (next : ℕ)
    → is_ok (mark_txs base txs (words, next)) ≡ is_queue next txs
unfolding mark_txs mark_tx
mark_txs-is_queue base [] words next = refl
mark_txs-is_queue base (tx ∷ txs) words next = elim (Bool-cases (is_l1_message tx)) [
  | inl l1 ↦ elim (Bool-cases (ltb tx.nonce next)) [
    | inl low ↦ rw (l1, low) (ground arith)
    | inr high ↦
        rw (l1, high)
          (mark_txs-is_queue base txs
              (grow (sub64 tx.nonce base / 256) (mark_skipped base next (tx.nonce - next) words))
              (add64 tx.nonce 1)
            ∙ ground arith)
  ]
  | inr l2 ↦ rw l2 (mark_txs-is_queue base txs words next)
]

-- The bitmap of chunks is built exactly if their L1 messages carry ascending queue indices from
-- the number of messages popped before.
pub construct_skipped_bitmap-is_queue :
    (chunks : List Chunk) (popped : ℕ)
    → is_ok (construct_skipped_bitmap chunks popped) ≡ is_queue popped (batch_txs chunks)
unfolding construct_skipped_bitmap
construct_skipped_bitmap-is_queue chunks popped =
    is_ok-bind (mark_chunks popped chunks ([], popped))
    ∙ ap is_ok (mark_chunks-txs popped chunks ([], popped))
    ∙ mark_txs-is_queue popped (batch_txs chunks) [] popped
  where
    is_ok-bind :
        (m : Outcome EncodingError (List ℕ × ℕ))
        → is_ok {A = List ℕ × ℕ} (m >>= λ r. ok (bitmap_bytes r.0, r.1)) ≡ is_ok m
    is_ok-bind (ok r) = refl
    is_ok-bind (err e) = refl

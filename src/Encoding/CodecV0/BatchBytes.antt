-- ===== src/Encoding/CodecV0/BatchBytes.antt =====
-- A batch header is read back from its bytes: `DaBatch.Encode` and `NewDABatchFromBytes` of
-- common/types/encoding/codecv0/codecv0.go.
use scroll.Common.{
  ℕ, ◌+◌, ◌^◌, ◌<◌, ◌≡◌, refl, ◌∙◌, ap, false, List, ◌++◌, arith, length, take, drop, ltb,
  length-append, drop-append, take-append, ok, put_uint, get_uint, length-put_uint,
  get_uint-put_uint,
}
use scroll.Encoding.CodecV0.{DaBatch, encode_batch, new_da_batch_from_bytes, field_at}

-- Every field fits its Go type.
pub record FitsWidths (b : DaBatch) : Type 0 where
  pub version : b.version < 256
  pub batch_index : b.batch_index < 256 ^ 8
  pub l1_message_popped : b.l1_message_popped < 256 ^ 8
  pub total_l1_message_popped : b.total_l1_message_popped < 256 ^ 8
  pub data_hash : b.data_hash < 256 ^ 32
  pub parent_batch_hash : b.parent_batch_hash < 256 ^ 32

-- A field behind `k` further bytes lies behind a written field of width `w` and those bytes.
field_at-skip :
    (w x : ℕ) (rest : List ℕ) (from k len : ℕ)
    → w + k ≡ from
    → field_at from len (put_uint w x ++ rest) ≡ field_at k len rest
field_at-skip w x rest from k len e =
    ap (λ bs. get_uint (take len bs))
      (drop-append (put_uint w x) rest from k (omega (arith, length-put_uint w x)))

field_at-here : (w x : ℕ) (rest : List ℕ) → x < 256 ^ w → field_at 0 w (put_uint w x ++ rest) ≡ x
field_at-here w x rest h =
    ap get_uint (take-append (put_uint w x) rest w (length-put_uint w x)) ∙ get_uint-put_uint w x h

drop-field :
    (w x : ℕ) (rest : List ℕ) (from k : ℕ)
    → w + k ≡ from
    → drop from (put_uint w x ++ rest) ≡ drop k rest
drop-field w x rest from k e =
    drop-append (put_uint w x) rest from k (omega (arith, length-put_uint w x))

length-field : (w x : ℕ) (rest : List ℕ) → length (put_uint w x ++ rest) ≡ w + length rest
length-field w x rest = omega (arith, length-append (put_uint w x) rest, length-put_uint w x)

module _ (b : DaBatch) where
  bytes6 : List ℕ
  bytes6 = put_uint 32 b.parent_batch_hash ++ b.skipped_l1_message_bitmap

  bytes5 : List ℕ
  bytes5 = put_uint 32 b.data_hash ++ bytes6

  bytes4 : List ℕ
  bytes4 = put_uint 8 b.total_l1_message_popped ++ bytes5

  bytes3 : List ℕ
  bytes3 = put_uint 8 b.l1_message_popped ++ bytes4

  bytes2 : List ℕ
  bytes2 = put_uint 8 b.batch_index ++ bytes3

  -- An encoded header has 89 bytes before its bitmap.
  pub length-encode_batch : length (encode_batch b) ≡ 89 + length b.skipped_l1_message_bitmap
  unfolding encode_batch bytes2 bytes3 bytes4 bytes5 bytes6
  length-encode_batch = omega (
    arith,
    length-field 1 b.version bytes2,
    length-field 8 b.batch_index bytes3,
    length-field 8 b.l1_message_popped bytes4,
    length-field 8 b.total_l1_message_popped bytes5,
    length-field 32 b.data_hash bytes6,
    length-field 32 b.parent_batch_hash b.skipped_l1_message_bitmap,
  )

  version_read : b.version < 256 → field_at 0 1 (encode_batch b) ≡ b.version
  unfolding encode_batch bytes2 bytes3 bytes4 bytes5 bytes6
  version_read h = field_at-here 1 b.version bytes2 h

  batch_index_read : b.batch_index < 256 ^ 8 → field_at 1 8 (encode_batch b) ≡ b.batch_index
  unfolding encode_batch bytes2 bytes3 bytes4 bytes5 bytes6
  batch_index_read h =
      field_at-skip 1 b.version bytes2 1 0 8 refl ∙ field_at-here 8 b.batch_index bytes3 h

  l1_message_popped_read :
      b.l1_message_popped < 256 ^ 8 → field_at 9 8 (encode_batch b) ≡ b.l1_message_popped
  unfolding encode_batch bytes2 bytes3 bytes4 bytes5 bytes6
  l1_message_popped_read h =
      field_at-skip 1 b.version bytes2 9 8 8 refl
      ∙ field_at-skip 8 b.batch_index bytes3 8 0 8 refl
      ∙ field_at-here 8 b.l1_message_popped bytes4 h

  total_read :
      b.total_l1_message_popped < 256 ^ 8
      → field_at 17 8 (encode_batch b) ≡ b.total_l1_message_popped
  unfolding encode_batch bytes2 bytes3 bytes4 bytes5 bytes6
  total_read h =
      field_at-skip 1 b.version bytes2 17 16 8 refl
      ∙ field_at-skip 8 b.batch_index bytes3 16 8 8 refl
      ∙ field_at-skip 8 b.l1_message_popped bytes4 8 0 8 refl
      ∙ field_at-here 8 b.total_l1_message_popped bytes5 h

  data_hash_read : b.data_hash < 256 ^ 32 → field_at 25 32 (encode_batch b) ≡ b.data_hash
  unfolding encode_batch bytes2 bytes3 bytes4 bytes5 bytes6
  data_hash_read h =
      field_at-skip 1 b.version bytes2 25 24 32 refl
      ∙ field_at-skip 8 b.batch_index bytes3 24 16 32 refl
      ∙ field_at-skip 8 b.l1_message_popped bytes4 16 8 32 refl
      ∙ field_at-skip 8 b.total_l1_message_popped bytes5 8 0 32 refl
      ∙ field_at-here 32 b.data_hash bytes6 h

  parent_hash_read :
      b.parent_batch_hash < 256 ^ 32 → field_at 57 32 (encode_batch b) ≡ b.parent_batch_hash
  unfolding encode_batch bytes2 bytes3 bytes4 bytes5 bytes6
  parent_hash_read h =
      field_at-skip 1 b.version bytes2 57 56 32 refl
      ∙ field_at-skip 8 b.batch_index bytes3 56 48 32 refl
      ∙ field_at-skip 8 b.l1_message_popped bytes4 48 40 32 refl
      ∙ field_at-skip 8 b.total_l1_message_popped bytes5 40 32 32 refl
      ∙ field_at-skip 32 b.data_hash bytes6 32 0 32 refl
      ∙ field_at-here 32 b.parent_batch_hash b.skipped_l1_message_bitmap h

  bitmap_read : drop 89 (encode_batch b) ≡ b.skipped_l1_message_bitmap
  unfolding encode_batch bytes2 bytes3 bytes4 bytes5 bytes6
  bitmap_read =
      drop-field 1 b.version bytes2 89 88 refl
      ∙ drop-field 8 b.batch_index bytes3 88 80 refl
      ∙ drop-field 8 b.l1_message_popped bytes4 80 72 refl
      ∙ drop-field 8 b.total_l1_message_popped bytes5 72 64 refl
      ∙ drop-field 32 b.data_hash bytes6 64 32 refl
      ∙ drop-field 32 b.parent_batch_hash b.skipped_l1_message_bitmap 32 0 refl

-- A batch header whose fields fit their Go types, with a bitmap of any length, is read back from
-- its encoding, every field as it was.
pub decode-encode_batch :
    (b : DaBatch) → FitsWidths b → new_da_batch_from_bytes (encode_batch b) ≡ ok b
unfolding new_da_batch_from_bytes
decode-encode_batch b fits =
    let enough : ltb (length (encode_batch b)) 89 ≡ false = ground (arith, length-encode_batch b) in
    rw enough λ i. ok (record {
      version = version_read b fits.version i;
      batch_index = batch_index_read b fits.batch_index i;
      l1_message_popped = l1_message_popped_read b fits.l1_message_popped i;
      total_l1_message_popped = total_read b fits.total_l1_message_popped i;
      data_hash = data_hash_read b fits.data_hash i;
      parent_batch_hash = parent_hash_read b fits.parent_batch_hash i;
      skipped_l1_message_bitmap = bitmap_read b i;
    })

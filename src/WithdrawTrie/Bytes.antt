-- ===== src/WithdrawTrie/Bytes.antt =====
-- Merkle proofs as bytes: encodeMerkleProofToBytes and decodeBytesToMerkleProof of
-- bridge-history-api/internal/utils/withdraw_trie.go.
use scroll.Common.{
  ℕ, ◌*◌, ◌/◌, ◌^◌, ◌<◌, ◌≡◌, refl, ap, ◌∙◌, List, [], ◌∷◌, ◌++◌, length, length-append, All, take,
  drop, take-append, drop-append, arith, put_uint, get_uint, length-put_uint, get_uint-put_uint,
}
use scroll.WithdrawTrie.{decode_from, decode_bytes_to_merkle_proof, encode_merkle_proof_to_bytes}

-- A hash of 32 bytes.
abbrev pub IsHash : ℕ → Type 0
IsHash h = h < 256 ^ 32

length-encode : (hs : List ℕ) → length (encode_merkle_proof_to_bytes hs) ≡ 32 * length hs
unfolding encode_merkle_proof_to_bytes
length-encode [] = refl
length-encode (h ∷ hs) = omega (
  arith,
  length-append (put_uint 32 h) (encode_merkle_proof_to_bytes hs),
  length-put_uint 32 h,
  length-encode hs,
)

decode_from-encode :
    (hs : List ℕ) → All IsHash hs → decode_from (length hs) (encode_merkle_proof_to_bytes hs) ≡ hs
unfolding encode_merkle_proof_to_bytes decode_from
decode_from-encode [] a = refl
decode_from-encode (h ∷ hs) a = λ i. first i ∷ rest (decode_from-encode hs a.1) i
  where
    first : get_uint (take 32 (put_uint 32 h ++ encode_merkle_proof_to_bytes hs)) ≡ h
    first =
        ap get_uint
          (take-append (put_uint 32 h) (encode_merkle_proof_to_bytes hs) 32 (length-put_uint 32 h))
        ∙ get_uint-put_uint 32 h a.0

    rest :
        decode_from (length hs) (encode_merkle_proof_to_bytes hs) ≡ hs
        → decode_from (length hs) (drop 32 (put_uint 32 h ++ encode_merkle_proof_to_bytes hs)) ≡ hs
    rest e =
        ap (decode_from (length hs)) (
          drop-append (put_uint 32 h) (encode_merkle_proof_to_bytes hs) 32 0
            (omega (arith, length-put_uint 32 h)))
        ∙ e

-- A proof of hashes that fit 32 bytes is read back from its bytes.
pub decode-encode_proof :
    (hs : List ℕ)
    → All IsHash hs
    → decode_bytes_to_merkle_proof (encode_merkle_proof_to_bytes hs) ≡ hs
unfolding decode_bytes_to_merkle_proof
decode-encode_proof hs a =
    let n : length (encode_merkle_proof_to_bytes hs) / 32 ≡ length hs =
      omega (arith, length-encode hs) in
    ap (λ k. decode_from k (encode_merkle_proof_to_bytes hs)) n ∙ decode_from-encode hs a

-- ===== src/Encoding/CodecV1/Payload.antt =====
-- The payload of a blob is read back: constructBlobPayload and makeBlobCanonical of
-- common/types/encoding/codecv1/codecv1.go.
use scroll.Common.{
  ℕ, zero, suc, ◌+◌, ◌-◌, ◌*◌, ◌%◌, ◌≤◌, ◌<◌, ◌≡◌, refl, sym, ◌∙◌, ap, List, [], ◌∷◌, ◌++◌,
  append_assoc, map, length, take, drop, replicate, length-append, drop-append, take-append,
  take-length-append, drop-length-append, arith, All, put_uint, get_uint, length-put_uint,
  get_uint-put_uint,
}
use scroll.Encoding.CodecV1.{
  max_num_chunks, put_sizes, join_all, metadata, blob_bytes, padded, field_elements,
}

-- A reader of blobs. It strips the zero bytes of the words, then reads the number of the chunks and
-- their sizes, and cuts the rest.
unfoldable pub unpadded : ℕ → List ℕ → List ℕ
unpadded zero blob = []
unpadded (suc n) blob = take 31 (drop 1 blob) ++ unpadded n (drop 32 blob)

unfoldable pub read_sizes : ℕ → List ℕ → List ℕ
read_sizes zero bytes = []
read_sizes (suc n) bytes = get_uint (take 4 bytes) ∷ read_sizes n (drop 4 bytes)

unfoldable pub cut_by : List ℕ → List ℕ → List (List ℕ)
cut_by [] bytes = []
cut_by (s ∷ sizes) bytes = take s bytes ∷ cut_by sizes (drop s bytes)

abbrev read_payload : List ℕ → List (List ℕ)
read_payload raw = cut_by (read_sizes (get_uint (take 2 raw)) (drop 2 raw)) (drop 62 raw)

unfoldable pub read_blob : List ℕ → List (List ℕ)
unfolding unpadded read_sizes cut_by
read_blob blob = read_payload (unpadded 4096 blob)

length-padded : (n : ℕ) (bytes : List ℕ) → length (padded n bytes) ≡ n
unfolding padded
length-padded zero bytes = refl
length-padded (suc n) [] = ap suc (length-padded n [])
length-padded (suc n) (b ∷ bytes) = ap suc (length-padded n bytes)

drop-nil : (n : ℕ) → ◌≡◌ {A = List ℕ} (drop n []) []
drop-nil zero = refl
drop-nil (suc n) = refl

padded_add :
    (a b : ℕ) (bytes : List ℕ) → padded a bytes ++ padded b (drop a bytes) ≡ padded (a + b) bytes
unfolding padded
padded_add zero b bytes = ap (λ n. padded n bytes) (omega arith)
padded_add (suc a) b [] =
    let e : suc (a + b) ≡ suc a + b = omega arith in
    ap (λ t. 0 ∷ t) (ap (λ t. padded a [] ++ padded b t) (sym (drop-nil a)) ∙ padded_add a b [])
    ∙ ap (λ n. padded n []) e
padded_add (suc a) b (x ∷ bytes) =
    let e : suc (a + b) ≡ suc a + b = omega arith in
    ap (λ t. x ∷ t) (padded_add a b bytes) ∙ ap (λ n. padded n (x ∷ bytes)) e

-- The reader finds the padded payload in the words.
unpadded-field_elements :
    (n : ℕ) (bytes : List ℕ) → unpadded n (field_elements n bytes) ≡ padded (31 * n) bytes
unfolding unpadded field_elements
unpadded-field_elements zero bytes = ap (λ n. padded n bytes) {x = 0} {y = 31 * 0} (omega arith)
unpadded-field_elements (suc n) bytes =
    let head = padded 31 bytes in
    let rest = field_elements n (drop 31 bytes) in
    let long = length-padded 31 bytes in
    let e : 31 + 31 * n ≡ 31 * suc n = omega arith in
    ap (λ t. t ++ unpadded n (drop 31 (head ++ rest))) (take-append head rest 31 long)
    ∙ ap (λ t. head ++ unpadded n t) (drop-append head rest 31 0 (omega (arith, long)))
    ∙ ap (λ t. head ++ t) (unpadded-field_elements n (drop 31 bytes))
    ∙ padded_add 31 (31 * n) bytes
    ∙ ap (λ k. padded k bytes) e

padded_zeros :
    (n : ℕ) (bytes : List ℕ)
    → length bytes ≤ n
    → padded n bytes ≡ bytes ++ replicate (n - length bytes) 0
unfolding padded
padded_zeros zero [] le = refl
padded_zeros zero (b ∷ bytes) le = absurd (omega arith)
padded_zeros (suc n) [] le =
    let e : suc (n - 0) ≡ suc n - 0 = omega arith in
    ap (λ t. 0 ∷ t) (padded_zeros n [] (omega arith)) ∙ ap (λ k. replicate k 0) e
padded_zeros (suc n) (b ∷ bytes) le =
    let e : n - length bytes ≡ suc n - suc (length bytes) = omega arith in
    ap (λ t. b ∷ t) (padded_zeros n bytes (omega arith) ∙ ap (λ k. bytes ++ replicate k 0) e)

length-put_sizes : (n : ℕ) (ps : List (List ℕ)) → length (put_sizes n ps) ≡ 4 * n
unfolding put_sizes
length-put_sizes zero ps = omega arith
length-put_sizes (suc n) [] = omega (arith, length-put_sizes n [])
length-put_sizes (suc n) (p ∷ ps) =
    let word = put_uint 4 (length p % 4294967296) in
    omega (
      arith,
      length-append word (put_sizes n ps),
      length-put_uint 4 (length p % 4294967296),
      length-put_sizes n ps,
    )

read_sizes-put_sizes :
    (n : ℕ) (ps : List (List ℕ)) (rest : List ℕ)
    → length ps ≤ n
    → All (λ p. length p < 4294967296) ps
    → read_sizes (length ps) (put_sizes n ps ++ rest) ≡ map length ps
unfolding read_sizes put_sizes
read_sizes-put_sizes n [] rest le a = refl
read_sizes-put_sizes zero (p ∷ ps) rest le a = absurd (omega arith)
read_sizes-put_sizes (suc n) (p ∷ ps) rest le a =
    let size = length p % 4294967296 in
    let word = put_uint 4 size in
    let more = put_sizes n ps ++ rest in
    let long = length-put_uint 4 size in
    let small : size ≡ length p = omega (arith, a.0) in
    ap (λ t. get_uint (take 4 t) ∷ read_sizes (length ps) (drop 4 t))
      (append_assoc word (put_sizes n ps) rest)
    ∙ ap (λ t. get_uint t ∷ read_sizes (length ps) (drop 4 (word ++ more)))
        (take-append word more 4 long)
    ∙ ap (λ t. get_uint word ∷ read_sizes (length ps) t)
        (drop-append word more 4 0 (omega (arith, long)))
    ∙ ap (λ t. t ∷ read_sizes (length ps) more) (get_uint-put_uint 4 size (omega arith) ∙ small)
    ∙ ap (λ t. length p ∷ t) (read_sizes-put_sizes n ps rest (omega arith) a.1)

cut_by-join_all :
    (ps : List (List ℕ)) (rest : List ℕ) → cut_by (map length ps) (join_all ps ++ rest) ≡ ps
unfolding cut_by join_all
cut_by-join_all [] rest = refl
cut_by-join_all (p ∷ ps) rest =
    let more = join_all ps ++ rest in
    ap (λ t. take (length p) t ∷ cut_by (map length ps) (drop (length p) t))
      (append_assoc p (join_all ps) rest)
    ∙ ap (λ t. t ∷ cut_by (map length ps) (drop (length p) (p ++ more))) (take-length-append p more)
    ∙ ap (λ t. p ∷ cut_by (map length ps) t) (drop-length-append p more)
    ∙ ap (λ t. p ∷ t) (cut_by-join_all ps rest)

AllShort :
    (ps : List (List ℕ)) → length (join_all ps) < 4294967296 → All (λ p. length p < 4294967296) ps
unfolding join_all
AllShort [] small = tt
AllShort (p ∷ ps) small =
    let total = length-append p (join_all ps) in
    (omega (arith, total, small), AllShort ps (omega (arith, total, small)))

pub length-blob_bytes : (ps : List (List ℕ)) → length (blob_bytes ps) ≡ 62 + length (join_all ps)
unfolding blob_bytes metadata
length-blob_bytes ps =
    let count = put_uint 2 (length ps % 65536) in
    let sizes = put_sizes max_num_chunks ps in
    omega (
      arith,
      length-append (count ++ sizes) (join_all ps),
      length-append count sizes,
      length-put_uint 2 (length ps % 65536),
      length-put_sizes max_num_chunks ps,
    )

-- The reader gets the chunks' payloads from the raw payload behind any padding.
read_payload-blob_bytes :
    (ps : List (List ℕ)) (zeros : List ℕ)
    → length ps ≤ 15
    → length (join_all ps) < 4294967296
    → read_payload (blob_bytes ps ++ zeros) ≡ ps
unfolding blob_bytes metadata
read_payload-blob_bytes ps zeros few small =
    let n = length ps % 65536 in
    let count = put_uint 2 n in
    let sizes = put_sizes max_num_chunks ps in
    let tail = join_all ps ++ zeros in
    let raw = count ++ (sizes ++ tail) in
    let long = length-put_uint 2 n in
    let shape : blob_bytes ps ++ zeros ≡ raw =
      append_assoc (count ++ sizes) (join_all ps) zeros ∙ append_assoc count sizes tail in
    let number : get_uint (take 2 raw) ≡ length ps =
      ap get_uint (take-append count (sizes ++ tail) 2 long)
      ∙ get_uint-put_uint 2 n (omega arith)
      ∙ omega (arith, few) in
    let behind : drop 2 raw ≡ sizes ++ tail =
      drop-append count (sizes ++ tail) 2 0 (omega (arith, long)) in
    let last : drop 62 raw ≡ tail =
      drop-append count (sizes ++ tail) 62 60 (omega (arith, long))
      ∙ drop-append sizes tail 60 0 (omega (arith, length-put_sizes max_num_chunks ps)) in
    ap read_payload shape
    ∙ ap (λ t. cut_by (read_sizes (get_uint (take 2 raw)) (drop 2 raw)) t) last
    ∙ ap (λ t. cut_by (read_sizes (get_uint (take 2 raw)) t) tail) behind
    ∙ ap (λ k. cut_by (read_sizes k (sizes ++ tail)) tail) number
    ∙ ap (λ t. cut_by t tail) (read_sizes-put_sizes max_num_chunks ps tail few (AllShort ps small))
    ∙ cut_by-join_all ps zeros

-- What is written into a blob is read back.
pub read_blob-field_elements :
    (ps : List (List ℕ))
    → length ps ≤ 15
    → length (blob_bytes ps) ≤ 126976
    → read_blob (field_elements 4096 (blob_bytes ps)) ≡ ps
unfolding read_blob
read_blob-field_elements ps few fits =
    let room : 31 * 4096 ≡ 126976 = omega arith in
    ap read_payload (
      unpadded-field_elements 4096 (blob_bytes ps)
      ∙ ap (λ n. padded n (blob_bytes ps)) room
      ∙ padded_zeros 126976 (blob_bytes ps) fits)
    ∙ read_payload-blob_bytes ps (replicate (126976 - length (blob_bytes ps)) 0) few
        (omega (arith, length-blob_bytes ps, fits))

-- ===== src/Proposer/Growth.antt =====
-- What chunk the proposer builds: rollup/internal/controller/watcher/chunk_proposer.go.
use scroll.Common.{
  ℕ, suc, ◌≡◌, ◌⊎◌, refl, sym, ap, ◌∙◌, subst, inl, inr, Bool, true, false, some, List, [], ◌∷◌,
  ◌++◌, append_assoc, append-nil, take, ok, >>=-eq-ok, ok-injective, Bool-cases, arith,
  if◌then◌else◌,
}
use scroll.Encoding.{CodecVersion, codec_v0, codec_v1, Block, Chunk}
use scroll.Encoding.{Marshaller}
use scroll.Proposer.{
  ChunkMetrics, Config, calculate_chunk_metrics, exceeds, Grown, limited, whole, cut, grow_chunk,
  finish, propose_from,
}

-- The metrics of a chunk exist and keep every limit.
abbrev pub IsFitting : Marshaller → Config → CodecVersion → Chunk → Type 0
IsFitting est cfg version chunk =
    (m : ChunkMetrics) × (calculate_chunk_metrics est chunk version ≡ ok m)
    × (exceeds cfg m ≡ false)

abbrev blocks_of : Grown → Chunk
blocks_of (limited chunk) = chunk
blocks_of (whole chunk) = chunk

-- Some first blocks of a list.
abbrev pub IsPrefix : Chunk → List Block → Type 0
IsPrefix chunk blocks = (n : ℕ) × (chunk ≡ take n blocks)

module _ (est : Marshaller) (cfg : Config) (version : CodecVersion) where
  -- A chunk in the loop is empty or within the limits.
  abbrev IsGrowing : Chunk → Type 0
  IsGrowing chunk = (chunk ≡ []) ⊎ IsFitting est cfg version chunk

  -- What the loop ends with: a limited chunk is within the limits.
  abbrev IsGrown : Grown → Type 0
  IsGrown (limited chunk) = IsFitting est cfg version chunk
  IsGrown (whole chunk) = IsGrowing chunk

  cut-limited :
      (chunk : Chunk) (g : Grown)
      → cut est version chunk ≡ ok g
      → IsGrowing chunk
      → (limited chunk ≡ g) × IsFitting est cfg version chunk
  unfolding cut
  cut-limited [] g e k = absurd (cc)
  cut-limited (b ∷ bs) g e (inl empty) = absurd (cc)
  cut-limited (b ∷ bs) g e (inr within) =
      let (m, measured, out) = >>=-eq-ok (calculate_chunk_metrics est (b ∷ bs) version) _ e in
      (ok-injective out, within)

  grow_chunk-IsGrown :
      (chunk : Chunk) (blocks : List Block) (g : Grown)
      → grow_chunk est cfg version chunk blocks ≡ ok g
      → IsGrowing chunk
      → ((n : ℕ) × (blocks_of g ≡ chunk ++ take n blocks)) × IsGrown g
  unfolding grow_chunk
  grow_chunk-IsGrown chunk [] g e k =
      let same : whole chunk ≡ g = ok-injective e in
      ((0, sym (ap blocks_of same) ∙ sym (append-nil chunk)), subst IsGrown same k)
  grow_chunk-IsGrown chunk (b ∷ bs) g e k =
      let (m, measured, out) =
        >>=-eq-ok (calculate_chunk_metrics est (chunk ++ b ∷ []) version) _ e in
      elim (Bool-cases (exceeds cfg m)) [
        | inl over ↦
            let (same, within) = cut-limited chunk g (sym (next over) ∙ out) k in
            ((0, sym (ap blocks_of same) ∙ sym (append-nil chunk)), subst IsGrown same within)
        | inr fits ↦
            let ((n, shape), good) =
              grow_chunk-IsGrown (chunk ++ b ∷ []) bs g (sym (next fits) ∙ out)
                (inr (m, measured, fits)) in
            ((suc n, shape ∙ append_assoc chunk (b ∷ []) (take n bs)), good)
      ]
    where
      next :
          {t u : Bool}
          → t ≡ u
          → elim t [
            | true ↦ cut est version chunk
            | false ↦ grow_chunk est cfg version (chunk ++ b ∷ []) bs
          ]
            ≡ elim u [
              | true ↦ cut est version chunk
              | false ↦ grow_chunk est cfg version (chunk ++ b ∷ []) bs
            ]
      next s = rw s refl

  measured-IsFitting :
      (chunk : Chunk) (m : ChunkMetrics)
      → calculate_chunk_metrics est chunk version ≡ ok m
      → IsGrowing chunk
      → IsFitting est cfg version chunk
  unfolding calculate_chunk_metrics
  measured-IsFitting [] m e k = absurd (cc)
  measured-IsFitting (b ∷ bs) m e (inl empty) = absurd (cc)
  measured-IsFitting (b ∷ bs) m e (inr within) = within

  finish-IsFitting :
      (max_blocks now : ℕ) (g : Grown) (chunk : Chunk)
      → finish est cfg version max_blocks now g ≡ ok (some chunk)
      → IsGrown g
      → (blocks_of g ≡ chunk) × IsFitting est cfg version chunk
  unfolding finish
  finish-IsFitting max_blocks now (limited c) chunk e k =
      let same : c ≡ chunk = cc in (same, subst (IsFitting est cfg version) same k)
  finish-IsFitting max_blocks now (whole c) chunk e k =
      let (m, measured, out) = >>=-eq-ok (calculate_chunk_metrics est c version) _ e in
      let same : c ≡ chunk = ground arith in
      (same, subst (IsFitting est cfg version) same (measured-IsFitting c m measured k))

-- The version of the codec for a chunk that starts with a block.
abbrev pub version_at : Config → Block → CodecVersion
version_at cfg b = if cfg.is_bernoulli b.header.number then codec_v1 else codec_v0

pub propose_from-IsPrefix :
    (est : Marshaller) (cfg : Config) (max_blocks now : ℕ) (b : Block) (bs : List Block)
    (chunk : Chunk)
    → propose_from est cfg max_blocks now (b ∷ bs) ≡ ok (some chunk)
    → IsPrefix chunk (b ∷ bs) × IsFitting est cfg (version_at cfg b) chunk
unfolding propose_from
propose_from-IsPrefix est cfg max_blocks now b bs chunk e =
    let (g, grown, out) = >>=-eq-ok (grow_chunk est cfg (version_at cfg b) [] (b ∷ bs)) _ e in
    let ((n, shape), good) =
      grow_chunk-IsGrown est cfg (version_at cfg b) [] (b ∷ bs) g grown (inl refl) in
    let (same, within) =
      finish-IsFitting est cfg (version_at cfg b) max_blocks now g chunk out good in
    ((n, sym same ∙ shape), within)

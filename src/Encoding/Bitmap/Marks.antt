-- ===== src/Encoding/Bitmap/Marks.antt =====
-- Which bits of the bitmap are set: common/types/encoding/bitmap.go.
use scroll.Common.{
  ℕ, zero, suc, ◌+◌, ◌-◌, ◌*◌, ◌/◌, ◌%◌, ◌<◌, ◌≤◌, ◌≡◌, refl, ◌∙◌, ap, ◌&&◌, List, [], ◌∷◌, ◌++◌,
  arith, length, length-append, length-replicate, get_or, replicate, ltb, leb, ◌==◌, if◌then◌else◌,
  u64_mod, sub64,
}
use scroll.Encoding.Bitmap.{bit, set_bit, grow, set_bit_at, mark_one, mark_skipped}

bit-set_bit : (x i j : ℕ) → bit (set_bit x i) j ≡ (if i == j then 1 else bit x j)
unfolding bit set_bit
bit-set_bit x zero zero = ground arith
bit-set_bit x zero (suc j) =
    let e : (x / 2 * 2 + 1) / 2 ≡ x / 2 = omega arith in ground (arith, ap (λ y. bit y j) e)
bit-set_bit x (suc i) zero = ground arith
bit-set_bit x (suc i) (suc j) =
    let e : (set_bit (x / 2) i * 2 + x % 2) / 2 ≡ set_bit (x / 2) i = omega arith in
    ground (arith, ap (λ y. bit y j) e, bit-set_bit (x / 2) i j)

get_or-append-zeros : (ws : List ℕ) (n i : ℕ) → get_or (ws ++ replicate n 0) i 0 ≡ get_or ws i 0
get_or-append-zeros [] zero i = refl
get_or-append-zeros [] (suc n) zero = refl
get_or-append-zeros [] (suc n) (suc i) = get_or-append-zeros [] n i
get_or-append-zeros (w ∷ ws) n zero = refl
get_or-append-zeros (w ∷ ws) n (suc i) = get_or-append-zeros ws n i

get_or-grow : (quo : ℕ) (ws : List ℕ) (i : ℕ) → get_or (grow quo ws) i 0 ≡ get_or ws i 0
unfolding grow
get_or-grow quo ws i = get_or-append-zeros ws (quo + 1 - length ws) i

lt-length-grow : (quo : ℕ) (ws : List ℕ) → quo < length (grow quo ws)
unfolding grow
lt-length-grow quo ws = omega (
  arith,
  length-append ws (replicate (quo + 1 - length ws) 0),
  length-replicate (quo + 1 - length ws) (let z : ℕ = 0 in z),
)

get_or-set_bit_at :
    (quo rem : ℕ) (ws : List ℕ) (i : ℕ)
    → quo < length ws
    → get_or (set_bit_at quo rem ws) i 0
      ≡ (if quo == i then set_bit (get_or ws i 0) rem else get_or ws i 0)
unfolding set_bit_at
get_or-set_bit_at quo rem [] i h = absurd (omega arith)
get_or-set_bit_at zero rem (w ∷ ws) zero h = ground arith
get_or-set_bit_at zero rem (w ∷ ws) (suc i) h = ground arith
get_or-set_bit_at (suc quo) rem (w ∷ ws) zero h = ground arith
get_or-set_bit_at (suc quo) rem (w ∷ ws) (suc i) h =
    ground (arith, get_or-set_bit_at quo rem ws i (omega arith))

-- Bit `k` of the bitmap.
abbrev pub bit_at : List ℕ → ℕ → ℕ
bit_at words k = bit (get_or words (k / 256) 0) (k % 256)

pub bit_at-grow : (quo : ℕ) (ws : List ℕ) (k : ℕ) → bit_at (grow quo ws) k ≡ bit_at ws k
bit_at-grow quo ws k = ap (λ w. bit w (k % 256)) (get_or-grow quo ws (k / 256))

bit_at-mark_one :
    (base index : ℕ) (ws : List ℕ) (k : ℕ)
    → base ≤ index
    → index < u64_mod
    → bit_at (mark_one base index ws) k ≡ (if base + k == index then 1 else bit_at ws k)
unfolding mark_one
bit_at-mark_one base index ws k le small =
    let d : sub64 index base ≡ index - base = omega arith in
    rw d (
      ap (λ w. bit w (k % 256))
        (get_or-set_bit_at ((index - base) / 256) ((index - base) % 256)
          (grow ((index - base) / 256) ws) (k / 256) (lt-length-grow ((index - base) / 256) ws))
      ∙ at_word (get_or (grow ((index - base) / 256) ws) (k / 256) 0)
      ∙ ap (λ b. if base + k == index then 1 else b) (bit_at-grow ((index - base) / 256) ws k))
  where
    at_word :
        (w : ℕ)
        → bit
            (if (index - base) / 256 == k / 256 then set_bit w ((index - base) % 256) else w)
            (k % 256)
          ≡ (if base + k == index then 1 else bit w (k % 256))
    at_word w = ground (arith, bit-set_bit w ((index - base) % 256) (k % 256))

pub bit_at-mark_skipped :
    (base index n : ℕ) (ws : List ℕ) (k : ℕ)
    → base ≤ index
    → index + n ≤ u64_mod
    → bit_at (mark_skipped base index n ws) k
      ≡ (if leb index (base + k) && ltb (base + k) (index + n) then 1 else bit_at ws k)
unfolding mark_skipped
bit_at-mark_skipped base index zero ws k le small = ground arith
bit_at-mark_skipped base index (suc n) ws k le small =
    bit_at-mark_skipped base (index + 1) n (mark_one base index ws) k (omega arith) (omega arith)
    ∙ ground (arith, bit_at-mark_one base index ws k le (omega arith))

pub bit-zero : (k : ℕ) → bit 0 k ≡ 0
unfolding bit
bit-zero zero = refl
bit-zero (suc k) = bit-zero k

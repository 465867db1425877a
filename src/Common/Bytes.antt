-- ===== src/Common/Bytes.antt =====
-- Big-endian byte strings, as lists of numbers below 256 (Go's binary.BigEndian).
use Prim.Native.Nat.{ℕ, zero, suc, ◌+◌, ◌*◌, ◌/◌, ◌%◌, ◌^◌, ◌<◌}
use native.Mathlib.Nat.{pow-suc}
use mathlib.Core.Path.{◌≡◌, refl}
use mathlib.Core.List.{List, [], ◌∷◌, ◌++◌}
use native.Mathlib.Omega.{arith}
use scroll.Common.Lists.{length, length-append}

-- The low `n` bytes of a number, the most significant first.
unfoldable pub put_uint : ℕ → ℕ → List ℕ
put_uint zero x = []
put_uint (suc n) x = put_uint n (x / 256) ++ (x % 256) ∷ []

pub get_uint_from : ℕ → List ℕ → ℕ
get_uint_from acc [] = acc
get_uint_from acc (b ∷ bs) = get_uint_from (acc * 256 + b) bs

-- The number that a byte string spells.
unfoldable pub get_uint : List ℕ → ℕ
unfolding get_uint_from
get_uint bs = get_uint_from 0 bs

pub length-put_uint : (n x : ℕ) → length (put_uint n x) ≡ n
unfolding put_uint
length-put_uint zero x = refl
length-put_uint (suc n) x =
    omega
      (arith, length-append (put_uint n (x / 256)) ((x % 256) ∷ []), length-put_uint n (x / 256))

get_uint_from-append :
    (acc : ℕ) (bs : List ℕ) (b : ℕ)
    → get_uint_from acc (bs ++ b ∷ []) ≡ get_uint_from acc bs * 256 + b
unfolding get_uint_from
get_uint_from-append acc [] b = refl
get_uint_from-append acc (c ∷ bs) b = get_uint_from-append (acc * 256 + c) bs b

-- What is written in `n` bytes is read back, if it fits.
pub get_uint-put_uint : (n x : ℕ) → x < 256 ^ n → get_uint (put_uint n x) ≡ x
unfolding get_uint put_uint
get_uint-put_uint zero x h = omega arith
get_uint-put_uint (suc n) x h = omega (
  arith,
  get_uint_from-append 0 (put_uint n (x / 256)) (x % 256),
  get_uint-put_uint n (x / 256) (omega (arith, pow-suc 256 n)),
)

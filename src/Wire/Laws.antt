-- ===== src/Wire/Laws.antt =====
-- Round trips of big-endian words, and reads of what was put in front.
use faasten.Base.{
  ℕ, zero, suc, ◌+◌, ◌*◌, ◌/◌, ◌%◌, ◌^◌, ◌<◌, ◌≡◌, refl, ap, arith, none, some, [], ◌∷◌, ◌++◌,
  length, length-append,
}
use faasten.Wire.{Bytes, be_bytes, from_be, from_be_bytes, split_exact, add_byte}

from_be-append :
    (acc : ℕ) (bs : Bytes) (b : ℕ) → from_be acc (bs ++ b ∷ []) ≡ from_be acc bs * 256 + b
unfolding from_be
from_be-append acc [] b = refl
from_be-append acc (c ∷ bs) b = from_be-append (acc * 256 + c) bs b

pub length-be_bytes : (k n : ℕ) → length (be_bytes k n) ≡ k
unfolding be_bytes
length-be_bytes zero n = refl
length-be_bytes (suc k) n =
    omega (arith, length-append (be_bytes k (n / 256)) (n % 256 ∷ []), length-be_bytes k (n / 256))

-- The bytes of a number that fits give the number back.
pub from_be-be_bytes : (k n : ℕ) → n < 256 ^ k → from_be_bytes (be_bytes k n) ≡ n
unfolding be_bytes from_be
from_be-be_bytes zero n h = omega arith
from_be-be_bytes (suc k) n h = omega (
  arith,
  from_be-append 0 (be_bytes k (n / 256)) (n % 256),
  from_be-be_bytes k (n / 256) (omega arith),
)

-- Bytes in front are read as they are, whatever follows.
pub split_exact-append : (bs rest : Bytes) → split_exact (length bs) (bs ++ rest) ≡ some (bs, rest)
unfolding split_exact
split_exact-append [] rest = refl
split_exact-append (b ∷ bs) rest = ap (add_byte b) (split_exact-append bs rest)

-- Where there are too few there is no result.
pub split_exact-short : (n : ℕ) (bs : Bytes) → length bs < n → split_exact n bs ≡ none
unfolding split_exact
split_exact-short zero bs h = elim h [ ]
split_exact-short (suc n) [] h = refl
split_exact-short (suc n) (b ∷ bs) h = ap (add_byte b) (split_exact-short n bs (omega arith))

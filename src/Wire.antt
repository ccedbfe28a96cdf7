-- ===== src/Wire.antt =====
-- Streams of bytes and big-endian words, as the standard library gives them: what
-- snapfaas/src/sched/message.rs and snapfaas/src/vm.rs are built on.
pub mod Laws
use faasten.Base.{
  ℕ, zero, suc, ◌+◌, ◌*◌, ◌/◌, ◌%◌, Bool, true, false, Option, none, some, List, [], ◌∷◌, ◌++◌,
}

abbrev pub Bytes : Type 0
Bytes = List ℕ

-- A connection: the bytes that come in until it is closed or fails, those that went out, and for
-- each write to come whether it fails, and then after how many bytes. A write past the end of that
-- list succeeds.
pub record Stream : Type 0 where
  pub incoming : Bytes
  pub outgoing : Bytes
  pub writes : List (Option ℕ)

-- `to_be_bytes` at a number of bytes: the highest first, and what is above is cut off.
unfoldable pub be_bytes : ℕ → ℕ → Bytes
be_bytes zero n = []
be_bytes (suc k) n = be_bytes k (n / 256) ++ (n % 256) ∷ []

unfoldable pub from_be : ℕ → Bytes → ℕ
from_be acc [] = acc
from_be acc (b ∷ bs) = from_be (acc * 256 + b) bs

-- `from_be_bytes`.
abbrev pub from_be_bytes : Bytes → ℕ
from_be_bytes bs = from_be 0 bs

abbrev pub add_byte : ℕ → Option (Bytes × Bytes) → Option (Bytes × Bytes)
add_byte b none = none
add_byte b (some (taken, rest)) = some (b ∷ taken, rest)

-- The first bytes, if there are as many.
unfoldable pub split_exact : ℕ → Bytes → Option (Bytes × Bytes)
split_exact zero bs = some ([], bs)
split_exact (suc n) [] = none
split_exact (suc n) (b ∷ bs) = add_byte b (split_exact n bs)

abbrev pub taken_from : Option (Bytes × Bytes) → Stream → Option Bytes × Stream
taken_from none s = (none, record s { incoming = [] })
taken_from (some (bs, rest)) s = (some bs, record s { incoming = rest })

-- `read_exact`: no result where the stream ends before.
unfoldable pub read_exact : ℕ → Stream → Option Bytes × Stream
unfolding split_exact
read_exact n s = taken_from (split_exact n s.incoming) s

unfoldable pub first_of : ℕ → Bytes → Bytes
first_of zero bs = []
first_of (suc n) [] = []
first_of (suc n) (b ∷ bs) = b ∷ first_of n bs

-- A write that fails has sent a part of the bytes.
unfoldable pub write_all : Bytes → Stream → Bool × Stream
unfolding first_of
write_all bs s = elim s.writes [
  | [] ↦ (true, record s { outgoing = s.outgoing ++ bs })
  | none ∷ later ↦ (true, record s { outgoing = s.outgoing ++ bs; writes = later })
  | some n ∷ later ↦ (false, record s { outgoing = s.outgoing ++ first_of n bs; writes = later })
]

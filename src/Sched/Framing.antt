-- ===== src/Sched/Framing.antt =====
-- Messages on a stream: `read_u8`, `write_u8`, `write` and `read` of snapfaas/src/sched/message.rs.
-- The encoding of messages (prost) is the interface Codec; the texts of errors are left out.
use faasten.Base.{
  ℕ, ◌^◌, ◌≡◌, Bool, true, false, ◌||◌, Option, none, some, length, ltb, leb, if◌then◌else◌,
}
use faasten.Wire.{Bytes, Stream, be_bytes, from_be_bytes, read_exact, write_all}

-- `Error` of snapfaas/src/sched/mod.rs.
pub data Error : Type 0 where
  rpc task_send stream_connect stream_read stream_write other : Error

-- What a function on a stream ends with.
pub data Result (A : Type 0) : Type 0 where
  ok : A → Result A
  err : Error → Result A
  panic : Result A

abbrev pub Io : Type 0 → Type 0
Io A = Stream → Result A × Stream

abbrev pub next : {A B : Type 0} → Result A → (A → Io B) → Io B
next (ok a) f s = f a s
next (err e) f s = (err e, s)
next panic f s = (panic, s)

infixl 5 ◌>>=◌ ◌>>◌
abbrev pub ◌>>=◌ : {A B : Type 0} → Io A → (A → Io B) → Io B
◌>>=◌ m f s = let (r, s') = m s in next r f s'

abbrev pub ◌>>◌ : {A B : Type 0} → Io A → Io B → Io B
m >> k = m >>= λ _. k

abbrev pub throw : {A : Type 0} → Error → Io A
throw e s = (err e, s)

abbrev pub read_or_error : Option Bytes × Stream → Result Bytes × Stream
read_or_error (none, s) = (err stream_read, s)
read_or_error (some bs, s) = (ok bs, s)

-- `stream.read_exact(..).map_err(Error::StreamRead)?`.
abbrev pub read_bytes : ℕ → Io Bytes
read_bytes n s = read_or_error (read_exact n s)

abbrev pub written_or_error : Bool × Stream → Result (Unit {0}) × Stream
written_or_error (true, s) = (ok tt, s)
written_or_error (false, s) = (err stream_write, s)

abbrev pub write_bytes : Bytes → Io (Unit {0})
write_bytes bs s = written_or_error (write_all bs s)

-- `vec![0u8; size]` panics where the size is above `isize::MAX`.
abbrev pub too_large : ℕ → Bool
too_large n = leb (2 ^ 63) n

abbrev pub allocate_and_read : ℕ → Io Bytes
allocate_and_read n s = if too_large n then (panic, s) else read_bytes n s

-- `_read_u8`.
unfoldable pub read_frame : Bool → Io Bytes
read_frame allow_empty = do
  lenbuf ← read_bytes 8
  let size = from_be_bytes lenbuf
  if allow_empty || ltb 0 size then allocate_and_read size else throw other

unfoldable pub read_u8 : Io Bytes
unfolding read_frame
read_u8 = read_frame false

unfoldable pub write_u8 : Bytes → Io (Unit {0})
write_u8 msg = do write_bytes (be_bytes 8 (length msg)); write_bytes msg

pub record Codec (T : Type 0) : Type 0 where
  pub encode : T → Bytes
  pub decode : Bytes → Option T
  pub decode-encode : (x : T) → decode (encode x) ≡ some x

abbrev pub decoded : {T : Type 0} → Option T → Result T
decoded none = err rpc
decoded (some x) = ok x

module _ {T : Type 0} ⦃C : Codec T⦄ where
  unfoldable pub write : T → Io (Unit {0})
  unfolding write_u8
  write msg = write_u8 (C.encode msg)

  -- `read`; `read_request` and `read_response` are the same at their types.
  unfoldable pub read : Io T
  unfolding read_frame
  read = do buf ← read_frame true; λ s. (decoded (C.decode buf), s)

-- ===== src/Vm/Channel.antt =====
-- The channel between a VM and its system call server: `send` and `wait` of snapfaas/src/vm.rs.
-- There is a connection.
use faasten.Base.{◌%◌, ◌^◌, Bool, true, false, Option, none, some, length}
use faasten.Wire.{Bytes, Stream, be_bytes, from_be_bytes, read_exact, write_all}
use faasten.Sched.Framing.{Codec}

-- `SyscallChannelError`.
pub data ChannelError : Type 0 where
  read write decode : ChannelError

pub data Received (A : Type 0) : Type 0 where
  ok : A → Received A
  err : ChannelError → Received A

abbrev pub then_write : Bytes → Bool × Stream → Bool × Stream
then_write bytes (true, s) = write_all bytes s
then_write bytes (false, s) = (false, s)

-- Whether all is written. The length is cut to 32 bits.
unfoldable pub send : Bytes → Stream → Bool × Stream
send bytes s = then_write bytes (write_all (be_bytes 4 (length bytes % 2 ^ 32)) s)

abbrev pub then_read : Option Bytes × Stream → Option Bytes × Stream
then_read (none, s) = (none, s)
then_read (some lenbuf, s) = read_exact (from_be_bytes lenbuf) s

-- The bytes of a message.
unfoldable pub wait_bytes : Stream → Option Bytes × Stream
wait_bytes s = then_read (read_exact 4 s)

abbrev pub decoded : {A : Type 0} → Option A → Received A
decoded none = err decode
decoded (some a) = ok a

abbrev pub decoded_bytes : {A : Type 0} → (Bytes → Option A) → Option Bytes → Received A
decoded_bytes d none = err read
decoded_bytes d (some bs) = decoded (d bs)

module _ {A : Type 0} ⦃C : Codec A⦄ where
  unfoldable pub wait : Stream → Received A × Stream
  unfolding wait_bytes
  wait s = let (o, s') = wait_bytes s in (decoded_bytes C.decode o, s')

-- ===== src/Vm/Frames.antt =====
-- What is read of what was sent to a VM's channel: snapfaas/src/vm.rs.
use faasten.Base.{
  ℕ, zero, suc, ◌%◌, ◌^◌, ◌≤◌, ◌<◌, ◌≡◌, refl, ap, subst, arith, some, [], ◌∷◌, ◌++◌, length,
}
use faasten.Wire.{Bytes, Stream, be_bytes, read_exact, write_all, split_exact, add_byte, first_of}
use faasten.Wire.Laws.{length-be_bytes, from_be-be_bytes, split_exact-append}
use faasten.Sched.Framing.{Codec}
use faasten.Vm.Channel.{ok, send, wait_bytes, then_read, wait, decoded_bytes}

-- What is left of a list after its first elements.
abbrev pub rest_of : ℕ → Bytes → Bytes
rest_of zero bs = bs
rest_of (suc n) [] = []
rest_of (suc n) (b ∷ bs) = rest_of n bs

split_exact-long :
    (n : ℕ) (bs : Bytes) → n ≤ length bs → split_exact n bs ≡ some (first_of n bs, rest_of n bs)
unfolding split_exact first_of
split_exact-long zero bs h = refl
split_exact-long (suc n) [] h = absurd (omega arith)
split_exact-long (suc n) (b ∷ bs) h = ap (add_byte b) (split_exact-long n bs (omega arith))

length-first_of : (n : ℕ) (bs : Bytes) → n ≤ length bs → length (first_of n bs) ≡ n
unfolding first_of
length-first_of zero bs h = refl
length-first_of (suc n) [] h = absurd (omega arith)
length-first_of (suc n) (b ∷ bs) h = ap suc (length-first_of n bs (omega arith))

first_of_all : (bs : Bytes) → first_of (length bs) bs ≡ bs
unfolding first_of
first_of_all [] = refl
first_of_all (b ∷ bs) = ap (λ l. b ∷ l) (first_of_all bs)

rest_of_all : (bs : Bytes) → rest_of (length bs) bs ≡ []
rest_of_all [] = refl
rest_of_all (b ∷ bs) = rest_of_all bs

send-sent :
    (bs : Bytes) (s : Stream)
    → s.writes ≡ []
    → s.outgoing ≡ []
    → (send bs s).1.outgoing ≡ be_bytes 4 (length bs % 2 ^ 32) ++ bs
unfolding send write_all
send-sent bs s e o = rw (e, o) refl

read_four :
    (n : ℕ) (rest : Bytes) (s : Stream)
    → s.incoming ≡ be_bytes 4 n ++ rest
    → read_exact 4 s ≡ (some (be_bytes 4 n), record s { incoming = rest })
unfolding read_exact
read_four n rest s e =
    rw
      (
        e,
        subst (λ k. split_exact k (be_bytes 4 n ++ rest) ≡ some (be_bytes 4 n, rest))
            (length-be_bytes 4 n) (split_exact-append (be_bytes 4 n) rest),
      )
      refl

read_long :
    (n : ℕ) (bs : Bytes) (s : Stream)
    → n ≤ length bs
    → s.incoming ≡ bs
    → read_exact n s ≡ (some (first_of n bs), record s { incoming = rest_of n bs })
unfolding read_exact
read_long n bs s h e = rw (e, split_exact-long n bs h) refl

small : (n : ℕ) → n % 2 ^ 32 < 256 ^ 4
small n = omega arith

-- What comes out of the channel: as many of the bytes as the length says that was sent.
wait_bytes-send :
    (bs : Bytes) (s r : Stream)
    → s.writes ≡ []
    → s.outgoing ≡ []
    → wait_bytes (record r { incoming = (send bs s).1.outgoing }) ≡ (
      some (first_of (length bs % 2 ^ 32) bs),
      record r { incoming = rest_of (length bs % 2 ^ 32) bs },
    )
unfolding wait_bytes
wait_bytes-send bs s r e o =
    let n : ℕ = length bs % 2 ^ 32 in
    rw
      (
        send-sent bs s e o,
        read_four n bs (record r { incoming = be_bytes 4 n ++ bs }) refl,
        then_read,
        from_be-be_bytes 4 n (small (length bs)),
      )
      (read_long n bs (record r { incoming = bs }) (omega arith) refl)

-- A message of 2^32 bytes or more does not arrive whole: the reader takes the first bytes only, as
-- many as the length modulo 2^32, and what is left is read as the next message.
pub send-cut :
    (bs : Bytes) (s r : Stream)
    → s.writes ≡ []
    → s.outgoing ≡ []
    → 2 ^ 32 ≤ length bs
    → (wait_bytes (record r { incoming = (send bs s).1.outgoing }) ≡ (
      some (first_of (length bs % 2 ^ 32) bs),
      record r { incoming = rest_of (length bs % 2 ^ 32) bs },
    ))
      × (length (first_of (length bs % 2 ^ 32) bs) < length bs)
send-cut bs s r e o h = (
  wait_bytes-send bs s r e o,
  omega (arith, length-first_of (length bs % 2 ^ 32) bs (omega arith)),
)

-- A message of fewer than 2^32 bytes that was sent on a fresh channel is received, and nothing is
-- left.
pub wait-send :
    {A : Type 0} ⦃C : Codec A⦄ (a : A) (s r : Stream)
    → s.writes ≡ []
    → s.outgoing ≡ []
    → length (C.encode a) < 2 ^ 32
    → wait (record r { incoming = (send (C.encode a) s).1.outgoing })
      ≡ (ok a, record r { incoming = [] })
unfolding wait
wait-send ⦃C⦄ a s r e o h =
    let bs : Bytes = C.encode a in
    let n : length bs % 2 ^ 32 ≡ length bs = omega arith in
    rw
      (
        wait_bytes-send bs s r e o,
        n,
        first_of_all bs,
        rest_of_all bs,
        decoded_bytes,
        C.decode-encode a,
      )
      refl

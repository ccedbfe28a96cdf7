-- ===== src/Sched/Framed.antt =====
-- Messages that were written are read back: snapfaas/src/sched/message.rs.
use mathlib.Core.List.{append-nil, append_assoc}
use faasten.Base.{
  ℕ, zero, suc, ◌^◌, ◌≤◌, ◌<◌, ◌≡◌, refl, sym, ◌∙◌, arith, List, [], ◌∷◌, ◌++◌, length, All, true,
  false, subst,
}
use faasten.Wire.{Bytes, Stream, be_bytes, read_exact, write_all}
use faasten.Wire.Laws.{length-be_bytes, from_be-be_bytes, split_exact-append, split_exact-short}
use faasten.Sched.Framing.{
  ok, err, panic, stream_read, Io, ◌>>=◌, ◌>>◌, read_bytes, read_frame, write_u8, Codec, write,
  read, too_large,
}

-- A frame: the length in eight bytes, and the bytes.
abbrev pub frame : Bytes → Bytes
frame bs = be_bytes 8 (length bs) ++ bs

read_bytes-append :
    (bs rest : Bytes) (s : Stream)
    → s.incoming ≡ bs ++ rest
    → read_bytes (length bs) s ≡ (ok bs, record s { incoming = rest })
unfolding read_exact
read_bytes-append bs rest s e = rw (e, split_exact-append bs rest) refl

read_bytes-short :
    (n : ℕ) (s : Stream)
    → length s.incoming < n
    → read_bytes n s ≡ (err stream_read, record s { incoming = [] })
unfolding read_exact
read_bytes-short n s h = rw (split_exact-short n s.incoming h) refl

read_bytes-eight :
    (n : ℕ) (rest : Bytes) (s : Stream)
    → s.incoming ≡ be_bytes 8 n ++ rest
    → read_bytes 8 s ≡ (ok (be_bytes 8 n), record s { incoming = rest })
read_bytes-eight n rest s e =
    subst (λ k. read_bytes k s ≡ (ok (be_bytes 8 n), record s { incoming = rest }))
      (length-be_bytes 8 n) (read_bytes-append (be_bytes 8 n) rest s e)

fits_capacity : (n : ℕ) → n < 2 ^ 63 → too_large n ≡ false
fits_capacity n h = ground arith

beyond_capacity : (n : ℕ) → 2 ^ 63 ≤ n → too_large n ≡ true
beyond_capacity n h = ground arith

pub read_frame-frame :
    (bs rest : Bytes) (s : Stream)
    → length bs < 2 ^ 63
    → s.incoming ≡ frame bs ++ rest
    → read_frame true s ≡ (ok bs, record s { incoming = rest })
unfolding read_frame
read_frame-frame bs rest s h e =
    rw
      (
        read_bytes-eight (length bs) (bs ++ rest) s
            (e ∙ append_assoc (be_bytes 8 (length bs)) bs rest),
        from_be-be_bytes 8 (length bs) (omega arith),
        fits_capacity (length bs) h,
      )
      (read_bytes-append bs rest (record s { incoming = bs ++ rest }) refl)

-- A frame that is cut off anywhere is not accepted.
pub read_frame-cut :
    (bs : Bytes) (n : ℕ) (s : Stream)
    → length bs < n
    → n < 2 ^ 63
    → s.incoming ≡ be_bytes 8 n ++ bs
    → read_frame true s ≡ (err stream_read, record s { incoming = [] })
unfolding read_frame
read_frame-cut bs n s h k e =
    rw (read_bytes-eight n bs s e, from_be-be_bytes 8 n (omega arith), fits_capacity n k)
      (read_bytes-short n (record s { incoming = bs }) h)

-- A length that no allocation can have ends the thread that reads it.
pub read_frame-panics :
    (bs : Bytes) (n : ℕ) (s : Stream)
    → 2 ^ 63 ≤ n
    → n < 2 ^ 64
    → s.incoming ≡ be_bytes 8 n ++ bs
    → read_frame true s ≡ (panic, record s { incoming = bs })
unfolding read_frame
read_frame-panics bs n s h k e =
    rw (read_bytes-eight n bs s e, from_be-be_bytes 8 n (omega arith), beyond_capacity n h) refl

pub write_u8-frame :
    (bs : Bytes) (s : Stream)
    → s.writes ≡ []
    → write_u8 bs s ≡ (ok tt, record s { outgoing = s.outgoing ++ frame bs })
unfolding write_u8 write_all
write_u8-frame bs s e = rw e (rw (append_assoc s.outgoing (be_bytes 8 (length bs)) bs) refl)

module _ {T : Type 0} ⦃C : Codec T⦄ where
  -- The frames of messages, one behind the other.
  abbrev pub frames : List T → Bytes
  frames [] = []
  frames (x ∷ xs) = frame (C.encode x) ++ frames xs

  abbrev pub Fits : T → Type 0
  Fits x = length (C.encode x) < 2 ^ 63

  -- Messages are written one after the other until a write fails.
  unfoldable pub write_each : List T → Io (Unit {0})
  write_each [] s = (ok tt, s)
  write_each (x ∷ xs) s = (do write x; write_each xs) s

  -- So many messages are read.
  unfoldable pub read_each : ℕ → Io (List T)
  read_each zero s = (ok [], s)
  read_each (suc n) s = (do x ← read; xs ← read_each n; λ t. (ok (x ∷ xs), t)) s

  write_each-frames :
      (xs : List T) (s : Stream)
      → s.writes ≡ []
      → write_each xs s ≡ (ok tt, record s { outgoing = s.outgoing ++ frames xs })
  unfolding write_each write
  write_each-frames [] s e = rw (append-nil s.outgoing) refl
  write_each-frames (x ∷ xs) s e = rw (write_u8-frame (C.encode x) s e) (
      rw (← append_assoc s.outgoing (frame (C.encode x)) (frames xs))
        (write_each-frames xs (record s { outgoing = s.outgoing ++ frame (C.encode x) }) e))

  read-frame :
      (x : T) (rest : Bytes) (s : Stream)
      → Fits x
      → s.incoming ≡ frame (C.encode x) ++ rest
      → read s ≡ (ok x, record s { incoming = rest })
  unfolding read
  read-frame x rest s h e = rw (read_frame-frame (C.encode x) rest s h e, C.decode-encode x) refl

  read_each-frames :
      (xs : List T) (rest : Bytes) (s : Stream)
      → All Fits xs
      → s.incoming ≡ frames xs ++ rest
      → read_each (length xs) s ≡ (ok xs, record s { incoming = rest })
  unfolding read_each
  read_each-frames [] rest s h e = rw e refl
  read_each-frames (x ∷ xs) rest s h e =
      rw
        (
          read-frame x (frames xs ++ rest) s h.0
              (e ∙ append_assoc (frame (C.encode x)) (frames xs) rest),
          read_each-frames xs rest (record s { incoming = frames xs ++ rest }) h.1 refl,
        )
        refl

  -- Messages that were written to a fresh connection are read from it in the order in which they
  -- were written, each whole, and nothing is left, whatever bytes they are encoded to.
  pub read_each-write_each :
      (xs : List T) (s r : Stream)
      → All Fits xs
      → s.outgoing ≡ []
      → s.writes ≡ []
      → (write_each xs s).0 ≡ ok tt
        × (read_each (length xs) (record r { incoming = (write_each xs s).1.outgoing })
            ≡ (ok xs, record r { incoming = [] }))
  read_each-write_each xs s r h o w =
      rw (write_each-frames xs s w, o)
        (
          refl,
          read_each-frames xs [] (record r { incoming = frames xs }) h
              (sym (append-nil (frames xs))),
        )

-- ===== src/Syscall/Plan/Loop.antt =====
-- The server's loop follows any plan: with one descriptor of an entry and three of blobs, at most,
-- for each system call that comes in.
use faasten.Base.{
  ℕ, ◌*◌, ◌-◌, ◌≤◌, Bool, true, false, none, some, List, [], ◌∷◌, arith, length, Bool-cases, inl,
  inr,
}
use faasten.Labels.{Labels, Component, implies, ◌&◌, secrecy}
use faasten.Fs.World.{Serde, Outcome, ok, err, panic, diverges}
use faasten.Syscall.Messages.{Syscall, DentResult}
use faasten.Syscall.Server.{Digest, Server, Call, ◌>>=◌, pure, on_fs}
use faasten.Syscall.Run.{Handled, Incoming, Served, handle, or_failed, answer, serve}
use faasten.Syscall.Dents
use faasten.Fs.Utils
use faasten.Syscall.Plan.{
  Plan, Follows, Follows-pure, Follows-panics, Follows-bind, Follows-quiet, Follows-unwrap,
  Follows-get_privilege, Follows-get_current_label, Follows-taint_with_label,
  Follows-declassify_with, Follows-blob_write, Follows-blob_finalize,
}
use faasten.Syscall.Plan.Handlers.{
  Follows-dent_get_blob, Follows-blob_create, Follows-blob_read, Follows-blob_close,
  Follows-dent_open, Follows-dent_close, Follows-dent_read, Follows-dent_list,
  Follows-dent_list_faceted, Follows-dent_ls_gate, Follows-dent_link, Follows-dent_unlink,
}
use faasten.Syscall.Plan.Edits.{Follows-dent_create, Follows-dent_update, Follows-dent_invoke}

module _ ⦃L : Labels⦄ ⦃S : Serde⦄ ⦃D : Digest⦄ {p : Plan} where
  Follows-reply :
      (k j : ℕ) {A : Type 0} (m : Call A) (f : A → Handled)
      → k ≤ 1
      → j ≤ 3
      → Follows p k j m
      → Follows p 1 3 (m >>= λ r. pure (f r))
  Follows-reply k j m f hk hj h =
      Follows-bind k (1 - k) j (3 - j) m _ (omega arith) (omega arith) h λ r. Follows-pure _ _ _

  Follows-or_failed :
      (k j : ℕ) (m : Call DentResult) → Follows p k j m → Follows p k j (or_failed m)
  unfolding or_failed
  Follows-or_failed k j m h = record { at = λ s. h.at s }

  Follows-declassify : (c : Component) → Follows p 0 0 (on_fs (Utils.declassify c))
  unfolding on_fs Utils.declassify
  Follows-declassify c = record {
    at = λ s. elim (Bool-cases (implies (c & s.world.privilege) (secrecy s.world.label))) [
      | inl e ↦ rw e (p.refl_at 0 0 s)
      | inr e ↦ rw e (p.refl_at 0 0 s)
    ];
  }

  Follows-root : Follows p 0 0 Dents.root
  unfolding Dents.root
  Follows-root = Follows-pure 0 0 _

  pub Follows-handle : (rounds : ℕ) (c : Syscall) → Follows p 1 3 (handle rounds c)
  unfolding handle
  Follows-handle rounds (Syscall.response r) =
      Follows-quiet _ _ Follows-get_privilege
        λ own. Follows-reply 0 0 _ _ (omega arith) (omega arith) (Follows-declassify_with own)
  Follows-handle rounds (Syscall.buckle_parse l) = Follows-pure 1 3 _
  Follows-handle rounds Syscall.get_current_label =
      Follows-reply 0 0 _ _ (omega arith) (omega arith) Follows-get_current_label
  Follows-handle rounds (Syscall.taint_with_label l) =
      Follows-reply 0 0 _ _ (omega arith) (omega arith) (Follows-taint_with_label l)
  Follows-handle rounds (Syscall.declassify c) =
      Follows-reply 0 0 _ _ (omega arith) (omega arith) (Follows-declassify c)
  Follows-handle rounds (Syscall.sub_privilege ts) = Follows-panics 1 3
  Follows-handle rounds Syscall.root =
      Follows-reply 0 0 _ _ (omega arith) (omega arith) Follows-root
  Follows-handle rounds (Syscall.dent_open fd e) =
      Follows-quiet _ _ (Follows-unwrap 0 0 e)
        λ e'. Follows-reply 1 0 _ _ (omega arith) (omega arith) (Follows-dent_open fd e')
  Follows-handle rounds (Syscall.dent_close fd) =
      Follows-reply 0 0 _ _ (omega arith) (omega arith) (Follows-dent_close fd)
  Follows-handle rounds (Syscall.dent_create none l) = Follows-pure 1 3 _
  Follows-handle rounds (Syscall.dent_create (some k) l) =
      Follows-reply 1 0 _ _ (omega arith) (omega arith)
        (Follows-or_failed 1 0 _ (Follows-dent_create k l))
  Follows-handle rounds (Syscall.dent_update none fd) = Follows-pure 1 3 _
  Follows-handle rounds (Syscall.dent_update (some k) fd) =
      Follows-reply 0 0 _ _ (omega arith) (omega arith)
        (Follows-or_failed 0 0 _ (Follows-dent_update fd k))
  Follows-handle rounds (Syscall.dent_read fd) =
      Follows-reply 0 0 _ _ (omega arith) (omega arith) (Follows-dent_read fd)
  Follows-handle rounds (Syscall.dent_list fd) =
      Follows-reply 0 0 _ _ (omega arith) (omega arith) (Follows-dent_list fd)
  Follows-handle rounds (Syscall.dent_ls_faceted fd c) =
      Follows-reply 0 0 _ _ (omega arith) (omega arith) (Follows-dent_list_faceted fd _)
  Follows-handle rounds (Syscall.dent_ls_gate fd) =
      Follows-reply 0 3 _ _ (omega arith) (omega arith) (Follows-dent_ls_gate fd)
  Follows-handle rounds (Syscall.dent_link d n t) =
      Follows-reply 0 0 _ _ (omega arith) (omega arith) (Follows-dent_link d n t)
  Follows-handle rounds (Syscall.dent_unlink fd n) =
      Follows-reply 0 0 _ _ (omega arith) (omega arith) (Follows-dent_unlink fd n)
  Follows-handle rounds (Syscall.dent_invoke fd sync payload toblob ps) =
      Follows-reply 0 1 _ _ (omega arith) (omega arith)
        (Follows-dent_invoke rounds fd payload sync toblob ps)
  Follows-handle rounds (Syscall.dent_get_blob fd) =
      Follows-reply 0 1 _ _ (omega arith) (omega arith) (Follows-dent_get_blob fd)
  Follows-handle rounds (Syscall.blob_create size) =
      Follows-reply 0 1 _ _ (omega arith) (omega arith) Follows-blob_create
  Follows-handle rounds (Syscall.blob_write fd bytes) =
      Follows-reply 0 0 _ _ (omega arith) (omega arith) (Follows-blob_write fd bytes)
  Follows-handle rounds (Syscall.blob_finalize fd) =
      Follows-reply 0 0 _ _ (omega arith) (omega arith) (Follows-blob_finalize fd)
  Follows-handle rounds (Syscall.blob_read fd o n) =
      Follows-reply 0 0 _ _ (omega arith) (omega arith) (Follows-blob_read fd _ _)
  Follows-handle rounds (Syscall.blob_close fd) =
      Follows-reply 0 0 _ _ (omega arith) (omega arith) (Follows-blob_close fd)

module _ ⦃L : Labels⦄ ⦃S : Serde⦄ ⦃D : Digest⦄ (p : Plan) where
  answer_keeps :
      (k j : ℕ) (sent : Bool) (again : Server → Served)
      → ((s : Server) → p.R k j s (again s).2)
      → (r : Outcome Handled) (s : Server) → p.R k j s (answer sent again (r, s)).2
  unfolding answer
  answer_keeps k j sent again h (ok (Handled.finished t)) s = p.refl_at k j s
  answer_keeps k j true again h (ok (Handled.reply r)) s = h s
  answer_keeps k j false again h (ok (Handled.reply r)) s = p.refl_at k j s
  answer_keeps k j sent again h (err e) s = p.refl_at k j s
  answer_keeps k j sent again h panic s = p.refl_at k j s
  answer_keeps k j sent again h diverges s = p.refl_at k j s

  pub serve_keeps :
      (rounds : ℕ) (incoming : List Incoming) (s : Server)
      → p.R (length incoming) (3 * length incoming) s (serve rounds incoming s).2
  unfolding serve
  serve_keeps rounds [] s = p.refl_at 0 0 s
  serve_keeps rounds (Incoming.nothing ∷ rest) s =
      p.trans_at 1 (length rest) 3 (3 * length rest) _ _ s s _ (omega arith) (omega arith)
        (p.refl_at 1 3 s) (serve_keeps rounds rest s)
  serve_keeps rounds (Incoming.broken ∷ rest) s = p.refl_at _ _ s
  serve_keeps rounds (Incoming.call c sent ∷ rest) s =
      let (r, s') = handle rounds c s in
      p.trans_at 1 (length rest) 3 (3 * length rest) _ _ s s' _ (omega arith) (omega arith)
        ((Follows-handle {p = p} rounds c).at s)
        (answer_keeps (length rest) (3 * length rest) sent (serve rounds rest)
          (serve_keeps rounds rest) r s')

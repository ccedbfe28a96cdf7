-- ===== src/Fs/Ops/Creates.antt =====
-- Who may create a gate or a service: `FS::{create_direct_gate, create_redirect_gate,
-- create_service}` of snapfaas/src/fs/mod.rs.
use faasten.Base.{
  ℕ, ◌≡◌, refl, Bool, ◌&&◌, some, List, if◌then◌else◌, Bool-cases, inl, inr, number_eq, test_refl,
}
use faasten.Labels.{Labels, Buckle, implies}
use faasten.Fs.Errors.{FsError, PrivilegeError}
use faasten.Fs.Types.{
  Item, Kind, Stored, DirEntry, direct, redirect, DirectGate, RedirectGate, Service,
}
use faasten.Fs.World.{Serde, Outcome, World, ok, err, ◌>>=◌}
use faasten.Fs.Object.{check_flow, check_delegation, new_ref}
use faasten.Fs.Object.Directory.{alone, may_write, cannot_write}
use faasten.Fs.Object.Fresh.{first_free, set_new_id-free}
use faasten.Fs.Ops.{create_direct_gate, create_redirect_gate, create_service}

module _ ⦃L : Labels⦄ ⦃S : Serde⦄ where
  abbrev pub cannot_delegate : FsError
  cannot_delegate = FsError.privilege_error PrivilegeError.cannot_delegate

  -- The answer of a creation, and whether an object is stored under the number.
  pub record Created (k : Kind) (v : Stored k) (e : DirEntry) (allowed flows : Bool) (w : World)
      (u : ℕ) (r : Outcome DirEntry × World) : Type 0 where
    pub answer :
        r.0 ≡ (if flows then (if allowed then ok e else err cannot_delegate) else err cannot_write)
    pub stored : r.1.store u ≡ (if flows && allowed then some (S.to_vec k v) else w.store u)

  -- A direct gate is created only by a thread that may write to its label and whose privilege
  -- implies both the gate's privilege and its declassification; then it stands under a number that
  -- was free. Else the call fails, and nothing is stored under that number.
  pub create_direct_gate-Created :
      (w : World) (l : Buckle) (g : DirectGate) (u : ℕ) (rest : List ℕ)
      → first_free w.store w.draws ≡ some (u, rest)
      → Created
          (Kind.labeled Item.gate)
          (record { label = l; contents = direct g })
          (DirEntry.gate (new_ref u))
          (implies w.privilege g.privilege && implies w.privilege g.declassify)
          (may_write l w)
          w
          u
          (create_direct_gate l g (alone w))
  unfolding create_direct_gate check_flow check_delegation ◌>>=◌
  create_direct_gate-Created w l g u rest h =
      let n =
        set_new_id-free (Kind.labeled Item.gate) (record { label = l; contents = direct g }) w u
          rest h in
      elim (Bool-cases (may_write l w)) [
        | inl p ↦ elim (Bool-cases (implies w.privilege g.privilege)) [
          | inl q ↦ elim (Bool-cases (implies w.privilege g.declassify)) [
            | inl r ↦ record {
              answer = rw (p, q, r, n.1) refl;
              stored = rw (p, q, r, n.1, n.2 u, test_refl u) refl;
            }
            | inr r ↦ record { answer = rw (p, q, r) refl; stored = rw (p, q, r) refl }
          ]
          | inr q ↦ record { answer = rw (p, q) refl; stored = rw (p, q) refl }
        ]
        | inr p ↦ record { answer = rw p refl; stored = rw p refl }
      ]

  -- Likewise a redirect gate.
  pub create_redirect_gate-Created :
      (w : World) (l : Buckle) (g : RedirectGate) (u : ℕ) (rest : List ℕ)
      → first_free w.store w.draws ≡ some (u, rest)
      → Created
          (Kind.labeled Item.gate)
          (record { label = l; contents = redirect g })
          (DirEntry.gate (new_ref u))
          (implies w.privilege g.privilege && implies w.privilege g.declassify)
          (may_write l w)
          w
          u
          (create_redirect_gate l g (alone w))
  unfolding create_redirect_gate check_flow check_delegation ◌>>=◌
  create_redirect_gate-Created w l g u rest h =
      let n =
        set_new_id-free (Kind.labeled Item.gate) (record { label = l; contents = redirect g }) w u
          rest h in
      elim (Bool-cases (may_write l w)) [
        | inl p ↦ elim (Bool-cases (implies w.privilege g.privilege)) [
          | inl q ↦ elim (Bool-cases (implies w.privilege g.declassify)) [
            | inl r ↦ record {
              answer = rw (p, q, r, n.1) refl;
              stored = rw (p, q, r, n.1, n.2 u, test_refl u) refl;
            }
            | inr r ↦ record { answer = rw (p, q, r) refl; stored = rw (p, q, r) refl }
          ]
          | inr q ↦ record { answer = rw (p, q) refl; stored = rw (p, q) refl }
        ]
        | inr p ↦ record { answer = rw p refl; stored = rw p refl }
      ]

  -- A service needs the thread's privilege to imply the service's privilege.
  pub create_service-Created :
      (w : World) (l : Buckle) (g : Service) (u : ℕ) (rest : List ℕ)
      → first_free w.store w.draws ≡ some (u, rest)
      → Created
          (Kind.labeled Item.service)
          (record { label = l; contents = g })
          (DirEntry.service (new_ref u))
          (implies w.privilege g.privilege)
          (may_write l w)
          w
          u
          (create_service l g (alone w))
  unfolding create_service check_flow check_delegation ◌>>=◌
  create_service-Created w l g u rest h =
      let n =
        set_new_id-free (Kind.labeled Item.service) (record { label = l; contents = g }) w u rest
          h in
      elim (Bool-cases (may_write l w)) [
        | inl p ↦ elim (Bool-cases (implies w.privilege g.privilege)) [
          | inl q ↦ record {
            answer = rw (p, q, n.1) refl;
            stored = rw (p, q, n.1, n.2 u, test_refl u) refl;
          }
          | inr q ↦ record { answer = rw (p, q) refl; stored = rw (p, q) refl }
        ]
        | inr p ↦ record { answer = rw p refl; stored = rw p refl }
      ]

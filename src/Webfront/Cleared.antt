-- ===== src/Webfront/Cleared.antt =====
-- What the resolution of a gate for a user gives: `resolve_gate_with_clearance_check` of
-- snapfaas/src/fs/utils.rs, which frontends/webfront/src/init.rs relies on.
use faasten.Base.{ap, ◌∙◌, ℕ, ◌≡◌, refl, subst, sym, true, Bool-cases, inl, inr}
use faasten.Labels.{Labels, Component, implies}
use faasten.Fs.Errors.{FsError}
use faasten.Fs.Types.{DirEntry, GateRef, DirectGate, Function}
use faasten.Fs.World.{Serde, World, Action, Outcome, continue, ensure}
use faasten.Fs.World
use faasten.Fs.Calls.Rises.{Rises, Rises-trans, rises_policy}
use faasten.Fs.Object.{gate_to_invokable}
use faasten.Fs.Object.Steps.{Steps-gate_to_invokable}
use faasten.Fs.Path.{FilePath}
use faasten.Fs.Ops.{read_path}
use faasten.Fs.Ops.Steps.{Steps-read_path}
use faasten.Fs.Utils.{check_clearance, resolve_gate_with_clearance_check}

module _ ⦃L : Labels⦄ ⦃S : Serde⦄ where
  -- The gate that stands at a path of the world `w`, the direct gate that it leads to there, and that
  -- the thread may invoke it; `t` is the world after these reads.
  pub record Cleared (rounds : ℕ) (path : FilePath) (w : World) (f : Function) (p : Component)
      (t : World) : Type 0 where
    pub gate : GateRef
    pub final_gate : DirectGate
    pub named : (read_path path w).0 ≡ Outcome.ok (DirEntry.gate gate)
    pub resolved : gate_to_invokable rounds gate (read_path path w).1 ≡ (Outcome.ok final_gate, t)
    pub function_is : f ≡ final_gate.function
    pub privilege_is : p ≡ final_gate.privilege
    pub cleared : implies w.privilege final_gate.invoker_integrity_clearance ≡ true

  -- A postcondition of an action.
  abbrev pub After : {A : Type 0} → (A → World → Type 0) → Outcome A × World → Type 0
  After Q (Outcome.ok a, w) = Q a w
  After Q (Outcome.err e, w) = Unit
  After Q (Outcome.panic, w) = Unit
  After Q (Outcome.diverges, w) = Unit

  After-continue :
      {A B : Type 0} (R : B → World → Type 0) (r : Outcome A) (w : World) (f : A → Action B)
      → ((a : A) → r ≡ Outcome.ok a → After R (f a w))
      → After R (continue r f w)
  After-continue R (Outcome.ok a) w f k = k a refl
  After-continue R (Outcome.err e) w f k = tt
  After-continue R Outcome.panic w f k = tt
  After-continue R Outcome.diverges w f k = tt

  After-bind :
      {A B : Type 0} (R : B → World → Type 0) (m : Action A) (f : A → Action B) (w : World)
      → ((a : A) → (m w).0 ≡ Outcome.ok a → After R (f a (m w).1))
      → After R (World.◌>>=◌ m f w)
  unfolding World.◌>>=◌
  After-bind R m f w k = After-continue R (m w).0 (m w).1 f k

  After-weaken :
      {A : Type 0} (Q R : A → World → Type 0) (r : Outcome A) (w : World)
      → ((a : A) (t : World) → Q a t → R a t)
      → After Q (r, w)
      → After R (r, w)
  After-weaken Q R (Outcome.ok a) w k h = k a w h
  After-weaken Q R (Outcome.err e) w k h = tt
  After-weaken Q R Outcome.panic w k h = tt
  After-weaken Q R Outcome.diverges w k h = tt

  -- What the test of the clearance gives.
  Checked : DirectGate → World → Function × Component → World → Type 0
  Checked g w r t =
      (r.0 ≡ g.function)
      × (r.1 ≡ g.privilege)
      × (implies w.privilege g.invoker_integrity_clearance ≡ true)
      × (t ≡ w)

  check-Checked : (g : DirectGate) (w : World) → After (Checked g w) (check_clearance g w)
  unfolding check_clearance World.◌>>=◌ Checked
  check-Checked g w = elim (Bool-cases (implies w.privilege g.invoker_integrity_clearance)) [
    | inl c ↦ rw c (refl, refl, c, refl)
    | inr c ↦ rw c tt
  ]

  -- What resolving a path gives, while the label rises.
  abbrev pub Resolved : ℕ → FilePath → World → Function × Component → World → Type 0
  Resolved rounds path w r t = Cleared rounds path w r.0 r.1 t × Rises w t

  gate-Resolved :
      (rounds : ℕ) (path : FilePath) (w : World) (gate : GateRef)
      → (read_path path w).0 ≡ Outcome.ok (DirEntry.gate gate)
      → After
          (Resolved rounds path w)
          (World.◌>>=◌ (gate_to_invokable rounds gate) check_clearance (read_path path w).1)
  unfolding rises_policy Checked
  gate-Resolved rounds path w gate n =
      let u : World = (read_path path w).1 in
      let t : World = (gate_to_invokable rounds gate u).1 in
      let h : Rises w u = (Steps-read_path {p = rises_policy} path).at w in
      let k : Rises u t = (Steps-gate_to_invokable {p = rises_policy} rounds gate).at u in
      let all : Rises w t = Rises-trans w u t h k in
      After-bind (Resolved rounds path w) (gate_to_invokable rounds gate) check_clearance u λ g e.
        After-weaken (Checked g t) (Resolved rounds path w) (check_clearance g t).0
          (check_clearance g t).1
          (λ r x (f_is, p_is, c, same). (
            record {
              gate = gate;
              final_gate = g;
              named = n;
              resolved = ap (λ y. (y, t)) e ∙ ap (λ y. (Outcome.ok g, y)) (sym same);
              function_is = f_is;
              privilege_is = p_is;
              cleared =
                  subst (λ q. implies q g.invoker_integrity_clearance ≡ true) all.privilege_kept c;
            },
            subst (λ y. Rises w y) (sym same) all,
          ))
          (check-Checked g t)

  entry-Resolved :
      (rounds : ℕ) (path : FilePath) (w : World) (e : DirEntry)
      → (read_path path w).0 ≡ Outcome.ok e
      → After (Resolved rounds path w) (
          (elim e as (λ _. Action (Function × Component)) [
            | DirEntry.gate gate ↦ World.◌>>=◌ (gate_to_invokable rounds gate) check_clearance
            | _ ↦ World.throw FsError.not_a_gate
          ])
            (read_path path w).1)
  unfolding World.throw
  entry-Resolved rounds path w (DirEntry.gate g) n = gate-Resolved rounds path w g n
  entry-Resolved rounds path w _ n = tt

  pub resolve-Resolved :
      (rounds : ℕ) (path : FilePath) (w : World)
      → After (Resolved rounds path w) (resolve_gate_with_clearance_check rounds path w)
  unfolding resolve_gate_with_clearance_check
  resolve-Resolved rounds path w =
      After-bind (Resolved rounds path w) (read_path path) _ w
        λ e h. entry-Resolved rounds path w e h
